-- ===== src/OneTimeInit.antt =====
-- threads/one_time_init.c: an initialisation that is done once, by whichever thread comes first. Threads
-- that stand at one place are alike, so that a state counts the threads at each place.
pub mod Once
use the_linux_programming_in.Prelude.{ℕ, ◌+◌, ◌-◌, ◌<◌, ◌≡◌, Bool, true, false, if◌then◌else◌}

-- `struct once_struct`; how often `init` was called and has returned; the threads before a call of
-- one_time_init() and how many calls have returned; those at the test of `called`, in `init`, before
-- `called = 1` and before the unlock
pub record State : Type 0 where
  pub locked : Bool
  pub called : Bool
  pub init_calls : ℕ
  pub init_returns : ℕ
  pub outside : ℕ
  pub tests : ℕ
  pub inits : ℕ
  pub sets : ℕ
  pub unlocks : ℕ
  pub returned : ℕ

-- ONCE_INITIALISER
abbrev pub start : ℕ → State
start threads = record {
  locked = false;
  called = false;
  init_calls = 0;
  init_returns = 0;
  outside = threads;
  tests = 0;
  inits = 0;
  sets = 0;
  unlocks = 0;
  returned = 0;
}

abbrev pub lock : State → State
lock s = record s { locked = true; outside = s.outside - 1; tests = s.tests + 1 }

-- An error of pthread_mutex_lock(), which is a positive number and not -1, goes unnoticed.
abbrev pub lock_fails : State → State
lock_fails s = record s { outside = s.outside - 1; tests = s.tests + 1 }

-- `if (!once_control->called)`, with the call of `init`
unfoldable pub test : State → State
test s =
    if s.called
    then record s { tests = s.tests - 1; unlocks = s.unlocks + 1 }
    else record s { tests = s.tests - 1; inits = s.inits + 1; init_calls = s.init_calls + 1 }

abbrev pub init_return : State → State
init_return s = record s {
  inits = s.inits - 1;
  sets = s.sets + 1;
  init_returns = s.init_returns + 1;
}

-- `once_control->called = 1`
abbrev pub set_called : State → State
set_called s = record s { called = true; sets = s.sets - 1; unlocks = s.unlocks + 1 }

-- The unlock and the return; the thread may call again.
abbrev pub unlock : State → State
unlock s = record s {
  locked = false;
  unlocks = s.unlocks - 1;
  returned = s.returned + 1;
  outside = s.outside + 1;
}

-- One step of one thread, where `faulty` says whether pthread_mutex_lock() may fail
pub data Step (faulty : Bool) (s : State) : State → Type 0 where
  locks : 0 < s.outside → s.locked ≡ false → Step faulty s (lock s)
  locks_not : faulty ≡ true → 0 < s.outside → Step faulty s (lock_fails s)
  at_test : 0 < s.tests → Step faulty s (test s)
  from_init : 0 < s.inits → Step faulty s (init_return s)
  at_set : 0 < s.sets → Step faulty s (set_called s)
  at_unlock : 0 < s.unlocks → Step faulty s (unlock s)

pub data Reach (faulty : Bool) (s : State) : State → Type 0 where
  here : Reach faulty s s
  next : {t u : State} → Reach faulty s t → Step faulty t u → Reach faulty s u
