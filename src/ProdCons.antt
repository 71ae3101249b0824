-- ===== src/ProdCons.antt =====
-- threads/prod_cons_cv.c: producers and consumers with a mutex and a condition variable. Threads of one
-- kind that stand at one place are alike, so that a state counts the threads at each place.
pub mod Invariant
pub mod Completion
use the_linux_programming_in.Prelude.{
  ℕ, ◌+◌, ◌-◌, ◌<◌, ◌≡◌, Bool, true, false, ◌&&◌, ltb, leb, ◌==◌, if◌then◌else◌,
}

pub data Status : Type 0 where
  running exit_success exit_failure : Status

-- The variables that `mtx` protects, the mutex, and the producers and consumers at each place. A thread
-- whose loop will go on and one whose loop is done (`…_done`) stand at different places.
pub record State : Type 0 where
  pub avail : ℕ
  pub total_units : ℕ
  pub units_produced : ℕ
  pub units_consumed : ℕ
  pub num_live_cons : ℕ
  pub locked : Bool
  -- before pthread_mutex_lock(); in the critical section; before the unlock; before the broadcast
  pub p_locks : ℕ
  pub p_works : ℕ
  pub p_unlocks : ℕ
  pub p_unlocks_done : ℕ
  pub p_casts : ℕ
  pub p_casts_done : ℕ
  pub p_ended : ℕ
  -- before the lock; at the test of the inner loop; in pthread_cond_wait(), asleep and woken up; before
  -- the unlock
  pub c_locks : ℕ
  pub c_tests : ℕ
  pub c_sleeps : ℕ
  pub c_wakes : ℕ
  pub c_unlocks : ℕ
  pub c_unlocks_done : ℕ
  pub c_ended : ℕ
  pub status : Status

-- `main` after its calls of pthread_create()
abbrev pub start : ℕ → ℕ → ℕ → State
start num_prod num_cons units = record {
  avail = 0;
  total_units = units;
  units_produced = 0;
  units_consumed = 0;
  num_live_cons = num_cons;
  locked = false;
  p_locks = num_prod;
  p_works = 0;
  p_unlocks = 0;
  p_unlocks_done = 0;
  p_casts = 0;
  p_casts_done = 0;
  p_ended = 0;
  c_locks = num_cons;
  c_tests = 0;
  c_sleeps = 0;
  c_wakes = 0;
  c_unlocks = 0;
  c_unlocks_done = 0;
  c_ended = 0;
  status = running;
}

abbrev pub producer_locks : State → State
producer_locks s = record s { locked = true; p_locks = s.p_locks - 1; p_works = s.p_works + 1 }

-- `prodDone = unitsProduced >= totalUnits`, and a unit, if it is not set
unfoldable pub produce : State → State
produce s =
    if leb s.total_units s.units_produced
    then record s { p_works = s.p_works - 1; p_unlocks_done = s.p_unlocks_done + 1 }
    else record s {
      p_works = s.p_works - 1;
      avail = s.avail + 1;
      units_produced = s.units_produced + 1;
      p_unlocks = s.p_unlocks + 1;
    }

abbrev pub producer_unlocks : State → State
producer_unlocks s = record s {
  locked = false;
  p_unlocks = s.p_unlocks - 1;
  p_casts = s.p_casts + 1;
}

abbrev pub producer_unlocks_done : State → State
producer_unlocks_done s = record s {
  locked = false;
  p_unlocks_done = s.p_unlocks_done - 1;
  p_casts_done = s.p_casts_done + 1;
}

-- pthread_cond_broadcast()
abbrev pub broadcast : State → State
broadcast s = record s { c_sleeps = 0; c_wakes = s.c_wakes + s.c_sleeps }

abbrev pub producer_casts : State → State
producer_casts s = broadcast (record s { p_casts = s.p_casts - 1; p_locks = s.p_locks + 1 })

abbrev pub producer_casts_done : State → State
producer_casts_done s =
    broadcast (record s { p_casts_done = s.p_casts_done - 1; p_ended = s.p_ended + 1 })

abbrev pub consumer_locks : State → State
consumer_locks s = record s { locked = true; c_locks = s.c_locks - 1; c_tests = s.c_tests + 1 }

-- The return of pthread_cond_wait() with the mutex
abbrev pub consumer_relocks : State → State
consumer_relocks s = record s { locked = true; c_wakes = s.c_wakes - 1; c_tests = s.c_tests + 1 }

-- pthread_cond_wait() gives the mutex back and sleeps.
abbrev pub cond_wait : State → State
cond_wait s = record s { locked = false; c_tests = s.c_tests - 1; c_sleeps = s.c_sleeps + 1 }

-- The consumer has left its inner loop: it is done, the last of all, or takes a unit.
unfoldable pub consume : State → State
consume s =
    if leb s.total_units s.units_consumed
    then (if s.num_live_cons - 1 == 0
        then record s {
          c_tests = s.c_tests - 1;
          num_live_cons = s.num_live_cons - 1;
          status = exit_success;
        }
        else record s {
          c_tests = s.c_tests - 1;
          num_live_cons = s.num_live_cons - 1;
          c_unlocks_done = s.c_unlocks_done + 1;
        })
    else record s {
      c_tests = s.c_tests - 1;
      units_consumed = s.units_consumed + 1;
      avail = s.avail - 1;
      c_unlocks = s.c_unlocks + 1;
    }

-- `while (avail == 0 && unitsConsumed < totalUnits)`, and what follows the loop
unfoldable pub consumer_tests : State → State
unfolding consume
consumer_tests s =
    if s.avail == 0 && ltb s.units_consumed s.total_units then cond_wait s else consume s

abbrev pub consumer_unlocks : State → State
consumer_unlocks s = record s {
  locked = false;
  c_unlocks = s.c_unlocks - 1;
  c_locks = s.c_locks + 1;
}

abbrev pub consumer_unlocks_done : State → State
consumer_unlocks_done s = record s {
  locked = false;
  c_unlocks_done = s.c_unlocks_done - 1;
  c_ended = s.c_ended + 1;
}

-- One step of one thread, chosen freely. A thread may wake up from pthread_cond_wait() for no reason,
-- and any call may fail, which ends the process.
pub data Step (s : State) : State → Type 0 where
  p_lock : s.status ≡ running → 0 < s.p_locks → s.locked ≡ false → Step s (producer_locks s)
  p_work : s.status ≡ running → 0 < s.p_works → Step s (produce s)
  p_unlock : s.status ≡ running → 0 < s.p_unlocks → Step s (producer_unlocks s)
  p_unlock_done : s.status ≡ running → 0 < s.p_unlocks_done → Step s (producer_unlocks_done s)
  p_cast : s.status ≡ running → 0 < s.p_casts → Step s (producer_casts s)
  p_cast_done : s.status ≡ running → 0 < s.p_casts_done → Step s (producer_casts_done s)
  c_lock : s.status ≡ running → 0 < s.c_locks → s.locked ≡ false → Step s (consumer_locks s)
  c_relock : s.status ≡ running → 0 < s.c_wakes → s.locked ≡ false → Step s (consumer_relocks s)
  c_test : s.status ≡ running → 0 < s.c_tests → Step s (consumer_tests s)
  c_wake_up :
      s.status ≡ running
      → 0 < s.c_sleeps
      → Step s (record s { c_sleeps = s.c_sleeps - 1; c_wakes = s.c_wakes + 1 })
  c_unlock : s.status ≡ running → 0 < s.c_unlocks → Step s (consumer_unlocks s)
  c_unlock_done : s.status ≡ running → 0 < s.c_unlocks_done → Step s (consumer_unlocks_done s)
  failure : s.status ≡ running → Step s (record s { status = exit_failure })

pub data Reach (s : State) : State → Type 0 where
  here : Reach s s
  next : {t u : State} → Reach s t → Step t u → Reach s u
