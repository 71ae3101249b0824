-- ===== src/SemInit.antt =====
-- svsem/svsem_good_init.c: processes that share a semaphore, of which the first initialises it. Any
-- number of processes run at once; a state has the semaphore and the place where each process stands.
pub mod Order
use the_linux_programming_in.Prelude.{
  ℕ, zero, suc, ◌+◌, ◌-◌, ◌≡◌, Bool, true, false, List, [], ◌∷◌, Option, none, some, ltb, ◌==◌,
  if◌then◌else◌, ℤ, pos, negsuc,
}

-- Before semget() with IPC_EXCL; the creator before its SETVAL and before its semop(); another process
-- before its semget() and before its IPC_STAT of the given try; before the operation of the command
-- line; after it; and after an exit with a failure.
pub data Place : Type 0 where
  creates sets noops gets operates succeeded failed : Place
  polls : ℕ → Place

-- Whether the set exists, its semaphore, and whether `sem_otime` is not 0
pub record SemSet : Type 0 where
  pub made : Bool
  pub value : ℕ
  pub otime : Bool

pub record State : Type 0 where
  pub set : SemSet
  pub place : ℕ → Place

abbrev pub max_tries : ℕ
max_tries = 10

-- What comes of a call: it is made, where a new semaphore may hold any value, or it fails.
pub data Event : Type 0 where
  made_with : ℕ → Event
  call_fails : Event

-- semop() on a value; `none` waits.
abbrev pub operation : ℤ → ℕ → Option ℕ
operation (pos zero) v = if v == 0 then some 0 else none
operation (pos (suc n)) v = some (v + suc n)
operation (negsuc n) v = if ltb n v then some (v - suc n) else none

-- semget() with IPC_CREAT and IPC_EXCL
unfoldable pub create : ℕ → SemSet → Place × SemSet
create v s = if s.made then (gets, s) else (sets, record { made = true; value = v; otime = false })

-- A semop() that is performed sets `sem_otime`.
abbrev pub operated : Place → Place → SemSet → Option ℕ → Place × SemSet
operated here there s none = (here, s)
operated here there s (some v) = (there, record s { value = v; otime = true })

-- `if (ds.sem_otime != 0) break`, and the end of the loop
unfoldable pub poll : ℕ → SemSet → Place
poll j s = if s.otime then operates else if ltb (j + 1) max_tries then polls (j + 1) else failed

-- The next call of a process whose operation is `op`
unfoldable pub move : ℤ → Event → Place → SemSet → Place × SemSet
unfolding create poll
move op (made_with v) creates s = create v s
move op (made_with v) sets s = (noops, record s { value = 0 })
move op (made_with v) noops s = operated noops operates s (operation (pos 0) s.value)
move op (made_with v) gets s = (polls 0, s)
move op (made_with v) (polls j) s = (poll j s, s)
move op (made_with v) operates s = operated operates succeeded s (operation op s.value)
move op (made_with v) succeeded s = (succeeded, s)
move op (made_with v) failed s = (failed, s)
move op call_fails succeeded s = (succeeded, s)
move op call_fails place s = (failed, s)

-- Process `i` makes its next call.
unfoldable pub run : (ℕ → ℤ) → ℕ → Event → State → State
unfolding move
run op i e s =
    let r = move (op i) e (s.place i) s.set in
    record { set = r.1; place = λ j. if j == i then r.0 else s.place j }

abbrev pub start : SemSet → State
start set = record { set = set; place = λ i. creates }

pub data Reach (op : ℕ → ℤ) (s : State) : State → Type 0 where
  here : Reach op s s
  next : {t : State} → Reach op s t → (i : ℕ) (e : Event) → Reach op s (run op i e t)
