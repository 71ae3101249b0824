-- ===== src/ProdCons/Invariant.antt =====
-- The invariant of threads/prod_cons_cv.c: the count of the units, the holder of the mutex, and that no
-- consumer sleeps that nobody will wake up.
use the_linux_programming_in.Prelude.{
  ℕ, ◌+◌, ◌≤◌, ◌<◌, ◌≡◌, ◌≢◌, refl, ◌⊎◌, inl, inr, arith, if◌then◌else◌,
}
use the_linux_programming_in.ProdCons.{
  running, exit_success, State, start, produce, consume, consumer_tests, Step, p_lock, p_work,
  p_unlock, p_unlock_done, p_cast, p_cast_done, c_lock, c_relock, c_test, c_wake_up, c_unlock,
  c_unlock_done, failure, Reach, here, next,
}

pub record IsFair (num_prod num_cons units : ℕ) (s : State) : Type 0 where
  pub total : s.total_units ≡ units
  pub count : s.units_produced ≡ s.units_consumed + s.avail
  pub bound : s.units_produced ≤ units
  pub holder :
      (s.status ≢ running)
      ⊎ (s.p_works + s.p_unlocks + s.p_unlocks_done + s.c_tests + s.c_unlocks + s.c_unlocks_done
          ≡ (if s.locked then 1 else 0))
  pub producers :
      s.p_locks + s.p_works + s.p_unlocks + s.p_unlocks_done + s.p_casts + s.p_casts_done
        + s.p_ended
      ≡ num_prod
  pub live :
      (s.status ≢ running)
      ⊎ ((s.num_live_cons ≡ s.c_locks + s.c_tests + s.c_sleeps + s.c_wakes + s.c_unlocks)
          × (0 < s.num_live_cons))
  pub p_done : (s.p_unlocks_done + s.p_casts_done + s.p_ended ≡ 0) ⊎ (s.units_produced ≡ units)
  pub sleepers : (s.c_sleeps ≡ 0) ⊎ ((s.units_produced < units) ⊎ (0 < s.p_unlocks + s.p_casts))
  pub success : (s.status ≢ exit_success) ⊎ (s.units_consumed ≡ units)

module _ (np nc n : ℕ) where
  pub start-IsFair : 0 < nc → IsFair np nc n (start np nc n)
  start-IsFair h = record {
    total = refl;
    count = refl;
    bound = omega arith;
    holder = inr refl;
    producers = omega arith;
    live = inr (omega arith, h);
    p_done = inl refl;
    sleepers = inl refl;
    success = inl (λ e. grind arith);
  }

  pub Step-IsFair : {s t : State} → Step s t → IsFair np nc n s → IsFair np nc n t
  unfolding produce consume consumer_tests
  Step-IsFair (p_lock r p l) i = record {
    total = ground (arith, i.total);
    count = ground (arith, i.count);
    bound = ground (arith, i.bound, i.total);
    holder = ground (arith, i.holder);
    producers = ground (arith, i.producers);
    live = ground (arith, i.live, i.holder);
    p_done = ground (arith, i.p_done, i.bound, i.total);
    sleepers = ground (arith, i.sleepers, i.p_done, i.count, i.total);
    success = ground (arith, i.success, i.count, i.bound, i.total);
  }
  Step-IsFair (p_work r p) i = record {
    total = ground (arith, i.total);
    count = ground (arith, i.count);
    bound = ground (arith, i.bound, i.total);
    holder = ground (arith, i.holder);
    producers = ground (arith, i.producers);
    live = ground (arith, i.live, i.holder);
    p_done = ground (arith, i.p_done, i.bound, i.total);
    sleepers = ground (arith, i.sleepers, i.p_done, i.count, i.total);
    success = ground (arith, i.success, i.count, i.bound, i.total);
  }
  Step-IsFair (p_unlock r p) i = record {
    total = ground (arith, i.total);
    count = ground (arith, i.count);
    bound = ground (arith, i.bound, i.total);
    holder = ground (arith, i.holder);
    producers = ground (arith, i.producers);
    live = ground (arith, i.live, i.holder);
    p_done = ground (arith, i.p_done, i.bound, i.total);
    sleepers = ground (arith, i.sleepers, i.p_done, i.count, i.total);
    success = ground (arith, i.success, i.count, i.bound, i.total);
  }
  Step-IsFair (p_unlock_done r p) i = record {
    total = ground (arith, i.total);
    count = ground (arith, i.count);
    bound = ground (arith, i.bound, i.total);
    holder = ground (arith, i.holder);
    producers = ground (arith, i.producers);
    live = ground (arith, i.live, i.holder);
    p_done = ground (arith, i.p_done, i.bound, i.total);
    sleepers = ground (arith, i.sleepers, i.p_done, i.count, i.total);
    success = ground (arith, i.success, i.count, i.bound, i.total);
  }
  Step-IsFair (p_cast r p) i = record {
    total = ground (arith, i.total);
    count = ground (arith, i.count);
    bound = ground (arith, i.bound, i.total);
    holder = ground (arith, i.holder);
    producers = ground (arith, i.producers);
    live = ground (arith, i.live, i.holder);
    p_done = ground (arith, i.p_done, i.bound, i.total);
    sleepers = ground (arith, i.sleepers, i.p_done, i.count, i.total);
    success = ground (arith, i.success, i.count, i.bound, i.total);
  }
  Step-IsFair (p_cast_done r p) i = record {
    total = ground (arith, i.total);
    count = ground (arith, i.count);
    bound = ground (arith, i.bound, i.total);
    holder = ground (arith, i.holder);
    producers = ground (arith, i.producers);
    live = ground (arith, i.live, i.holder);
    p_done = ground (arith, i.p_done, i.bound, i.total);
    sleepers = ground (arith, i.sleepers, i.p_done, i.count, i.total);
    success = ground (arith, i.success, i.count, i.bound, i.total);
  }
  Step-IsFair (c_lock r p l) i = record {
    total = ground (arith, i.total);
    count = ground (arith, i.count);
    bound = ground (arith, i.bound, i.total);
    holder = ground (arith, i.holder);
    producers = ground (arith, i.producers);
    live = ground (arith, i.live, i.holder);
    p_done = ground (arith, i.p_done, i.bound, i.total);
    sleepers = ground (arith, i.sleepers, i.p_done, i.count, i.total);
    success = ground (arith, i.success, i.count, i.bound, i.total);
  }
  Step-IsFair (c_relock r p l) i = record {
    total = ground (arith, i.total);
    count = ground (arith, i.count);
    bound = ground (arith, i.bound, i.total);
    holder = ground (arith, i.holder);
    producers = ground (arith, i.producers);
    live = ground (arith, i.live, i.holder);
    p_done = ground (arith, i.p_done, i.bound, i.total);
    sleepers = ground (arith, i.sleepers, i.p_done, i.count, i.total);
    success = ground (arith, i.success, i.count, i.bound, i.total);
  }
  Step-IsFair (c_test r p) i = record {
    total = ground (arith, i.total);
    count = ground (arith, i.count);
    bound = ground (arith, i.bound, i.total);
    holder = ground (arith, i.holder);
    producers = ground (arith, i.producers);
    live = ground (arith, i.live, i.holder);
    p_done = ground (arith, i.p_done, i.bound, i.total);
    sleepers = ground (arith, i.sleepers, i.p_done, i.count, i.total);
    success = ground (arith, i.success, i.count, i.bound, i.total);
  }
  Step-IsFair (c_wake_up r p) i = record {
    total = ground (arith, i.total);
    count = ground (arith, i.count);
    bound = ground (arith, i.bound, i.total);
    holder = ground (arith, i.holder);
    producers = ground (arith, i.producers);
    live = ground (arith, i.live, i.holder);
    p_done = ground (arith, i.p_done, i.bound, i.total);
    sleepers = ground (arith, i.sleepers, i.p_done, i.count, i.total);
    success = ground (arith, i.success, i.count, i.bound, i.total);
  }
  Step-IsFair (c_unlock r p) i = record {
    total = ground (arith, i.total);
    count = ground (arith, i.count);
    bound = ground (arith, i.bound, i.total);
    holder = ground (arith, i.holder);
    producers = ground (arith, i.producers);
    live = ground (arith, i.live, i.holder);
    p_done = ground (arith, i.p_done, i.bound, i.total);
    sleepers = ground (arith, i.sleepers, i.p_done, i.count, i.total);
    success = ground (arith, i.success, i.count, i.bound, i.total);
  }
  Step-IsFair (c_unlock_done r p) i = record {
    total = ground (arith, i.total);
    count = ground (arith, i.count);
    bound = ground (arith, i.bound, i.total);
    holder = ground (arith, i.holder);
    producers = ground (arith, i.producers);
    live = ground (arith, i.live, i.holder);
    p_done = ground (arith, i.p_done, i.bound, i.total);
    sleepers = ground (arith, i.sleepers, i.p_done, i.count, i.total);
    success = ground (arith, i.success, i.count, i.bound, i.total);
  }
  Step-IsFair (failure r) i = record {
    total = ground (arith, i.total);
    count = ground (arith, i.count);
    bound = ground (arith, i.bound, i.total);
    holder = ground (arith, i.holder);
    producers = ground (arith, i.producers);
    live = ground (arith, i.live, i.holder);
    p_done = ground (arith, i.p_done, i.bound, i.total);
    sleepers = ground (arith, i.sleepers, i.p_done, i.count, i.total);
    success = ground (arith, i.success, i.count, i.bound, i.total);
  }

  pub Reach-IsFair : {s t : State} → Reach s t → IsFair np nc n s → IsFair np nc n t
  Reach-IsFair here i = i
  Reach-IsFair (next r st) i = Step-IsFair st (Reach-IsFair r i)
