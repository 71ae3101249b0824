-- ===== src/MultiJoin.antt =====
-- threads/thread_multijoin.c: the main thread joins each of its threads as soon as it terminates. A state
-- has the variables, the mutex, the place of each thread in the order of the array, and that of the main
-- thread. A thread that is not created yet counts as one before its first step.
pub mod Sound
pub mod Joined
mod Tests
use the_linux_programming_in.Prelude.{
  ℕ, zero, suc, ◌+◌, ◌-◌, ◌≡◌, Bool, true, false, Option, none, some, List, [], ◌∷◌, length, ◌==◌,
  if◌then◌else◌,
}

-- TS_ALIVE: at work, or with the mutex; TS_TERMINATED: before the unlock, before the signal, or returned;
-- TS_JOINED
pub data Place : Type 0 where
  works holds : Place
  marked signals returned : Place
  joined : Place

-- The main thread: at `numLive > 0`, before the lock, at `numUnjoined == 0`, asleep, before it has the mutex
-- again, at an index of the loop, before the unlock, and after exit()
pub data MainPlace : Type 0 where
  tests_live locks tests_unjoined waits relocks : MainPlace
  joins : ℕ → MainPlace
  unlocks exited : MainPlace

pub record State : Type 0 where
  pub locked : Bool
  pub num_live : ℕ
  pub num_unjoined : ℕ
  pub threads : List Place
  pub main : MainPlace

unfoldable pub at : ℕ → List Place → Option Place
at k [] = none
at zero (p ∷ ps) = some p
at (suc k) (p ∷ ps) = at k ps

unfoldable pub put : ℕ → Place → List Place → List Place
put k q [] = []
put zero q (p ∷ ps) = q ∷ ps
put (suc k) q (p ∷ ps) = p ∷ put k q ps

-- pthread_cond_signal() on `threadDied`
abbrev pub woken : MainPlace → MainPlace
woken waits = relocks
woken m = m

-- The next step of thread `k`, at its place; `none` waits, or has no step.
unfoldable pub thread_at : ℕ → Option Place → State → Option State
unfolding put
thread_at k none s = none
thread_at k (some works) s =
    if s.locked then none else some (record s { locked = true; threads = put k holds s.threads })
thread_at k (some holds) s =
    some (record s { num_unjoined = s.num_unjoined + 1; threads = put k marked s.threads })
thread_at k (some marked) s = some (record s { locked = false; threads = put k signals s.threads })
thread_at k (some signals) s =
    some (record s { threads = put k returned s.threads; main = woken s.main })
thread_at k (some returned) s = none
thread_at k (some joined) s = none

unfoldable pub thread_step : ℕ → State → Option State
unfolding at thread_at
thread_step k s = thread_at k (at k s.threads) s

-- The loop over the array, at an index; pthread_join() waits for the thread to return.
unfoldable pub scan : ℕ → Option Place → State → Option State
unfolding put
scan k none s = some (record s { main = unlocks })
scan k (some works) s = some (record s { main = joins (k + 1) })
scan k (some holds) s = some (record s { main = joins (k + 1) })
scan k (some marked) s = none
scan k (some signals) s = none
scan k (some returned) s = some (record s {
  num_live = s.num_live - 1;
  num_unjoined = s.num_unjoined - 1;
  threads = put k joined s.threads;
  main = joins (k + 1);
})
scan k (some joined) s = some (record s { main = joins (k + 1) })

-- The next step of the main thread
unfoldable pub main_at : MainPlace → State → Option State
unfolding scan at
main_at tests_live s = some (record s { main = if s.num_live == 0 then exited else locks })
main_at locks s =
    if s.locked then none else some (record s { locked = true; main = tests_unjoined })
main_at tests_unjoined s =
    if s.num_unjoined == 0
    then some (record s { locked = false; main = waits })
    else some (record s { main = joins 0 })
main_at waits s = none
main_at relocks s =
    if s.locked then none else some (record s { locked = true; main = tests_unjoined })
main_at (joins k) s = scan k (at k s.threads) s
main_at unlocks s = some (record s { locked = false; main = tests_live })
main_at exited s = none

abbrev pub all_work : ℕ → List Place
all_work zero = []
all_work (suc n) = works ∷ all_work n

abbrev pub start : ℕ → State
start tot_threads = record {
  locked = false;
  num_live = tot_threads;
  num_unjoined = 0;
  threads = all_work tot_threads;
  main = tests_live;
}

-- A step of the main thread, of a thread, or a wait that ends for no reason
pub data Step (s : State) : State → Type 0 where
  main_moves : {t : State} → main_at s.main s ≡ some t → Step s t
  thread_moves : {t : State} (k : ℕ) → thread_step k s ≡ some t → Step s t
  wakes : s.main ≡ waits → Step s (record s { main = relocks })

pub data Reach (s : State) : State → Type 0 where
  here : Reach s s
  next : {t u : State} → Reach s t → Step t u → Reach s u
