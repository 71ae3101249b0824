-- ===== src/MultiJoin/Tests.antt =====
-- The theorems on threads/thread_multijoin.c at concrete inputs.
use the_linux_programming_in.Prelude.{ℕ, ◌≡◌, refl, false, some, [], ◌∷◌, arith}
use the_linux_programming_in.MultiJoin.{
  Place, signals, joined, State, exited, waits, at, put, thread_at, thread_step, scan, main_at,
  start, Reach, here, next, main_moves, thread_moves,
}
use the_linux_programming_in.MultiJoin.Joined.{Moves, all_joined, never_stuck}

-- The main thread sleeps, and the one thread has terminated and is about to wake it.
abbrev asleep : State
asleep = record {
  locked = false;
  num_live = 1;
  num_unjoined = 1;
  threads = signals ∷ [];
  main = waits;
}

asleep-reached : Reach (start 1) asleep
unfolding main_at thread_step thread_at at put
asleep-reached =
    next
      (next
        (next (next (next (next here (main_moves refl)) (main_moves refl)) (main_moves refl))
          (thread_moves 0 refl))
        (thread_moves 0 refl))
      (thread_moves 0 refl)

never_stuck_example : Moves asleep
never_stuck_example = never_stuck 1 asleep asleep-reached (λ e. ground (arith, e))

abbrev done : State
done = record {
  locked = false;
  num_live = 0;
  num_unjoined = 0;
  threads = joined ∷ [];
  main = exited;
}

done-reached : Reach (start 1) done
unfolding main_at thread_step thread_at at put scan
done-reached =
    next
      (next
        (next
          (next
            (next (next (next asleep-reached (thread_moves 0 refl)) (main_moves refl))
              (main_moves refl))
            (main_moves refl))
          (main_moves refl))
        (main_moves refl))
      (main_moves refl)

all_joined_example :
    (done.num_live ≡ 0)
    × (done.num_unjoined ≡ 0)
    × ((k : ℕ) (p : Place) → at k done.threads ≡ some p → p ≡ joined)
all_joined_example = all_joined 1 done done-reached refl
