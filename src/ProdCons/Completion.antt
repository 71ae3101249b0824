-- ===== src/ProdCons/Completion.antt =====
-- threads/prod_cons_cv.c: no unit is lost, and the threads never block each other.
use the_linux_programming_in.Prelude.{ℕ, ◌+◌, ◌-◌, ◌*◌, ◌≤◌, ◌<◌, ◌≡◌, ◌≢◌, ◌⊎◌, arith}
use the_linux_programming_in.ProdCons.{running, exit_success, exit_failure, State, start, Reach}
use the_linux_programming_in.ProdCons.Invariant.{IsFair, start-IsFair, Reach-IsFair}

-- Work that is left
abbrev work : State → ℕ
work s =
    4 * (s.total_units - s.units_produced)
    + 3 * (s.total_units - s.units_consumed)
    + (4 * s.p_locks
        + 3 * s.p_works
        + 6 * s.p_unlocks
        + 2 * s.p_unlocks_done
        + 5 * s.p_casts
        + s.p_casts_done)
    + (4 * s.c_locks
        + 4 * s.c_sleeps
        + 4 * s.c_wakes
        + 5 * s.c_tests
        + 5 * s.c_unlocks
        + s.c_unlocks_done)

-- Some steps, with no failure, that leave less work
abbrev Goes : State → Type 0
Goes s = (t : State) × Reach s t × (t.status ≢ exit_failure) × (work t < work s)

module _ (np nc n : ℕ) (some_consumer : 0 < nc) (s : State) (q : Reach (start np nc n) s) where
  fair : IsFair np nc n s
  fair = Reach-IsFair np nc n q (start-IsFair np nc n some_consumer)

  -- In every state that the threads reach, for any number of producers, at least one consumer, and any
  -- interleaving: the units produced are those consumed and those available, no more are produced than
  -- asked for, at most one thread is between its lock and its unlock while the process runs, and the
  -- process has ended with success only with every unit consumed and none available.
  pub units_conserved :
      (s.units_produced ≡ s.units_consumed + s.avail)
      × (s.units_produced ≤ n)
      × ((s.status ≢ running)
          ⊎ (s.p_works + s.p_unlocks + s.p_unlocks_done + s.c_tests + s.c_unlocks + s.c_unlocks_done
              ≤ 1))
      × ((s.status ≢ exit_success) ⊎ ((s.units_consumed ≡ n) × (s.avail ≡ 0)))
  units_conserved = (
    fair.count,
    fair.bound,
    ground (arith, fair.holder),
    ground (arith, fair.success, fair.count, fair.bound),
  )
