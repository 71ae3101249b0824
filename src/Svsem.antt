-- ===== src/Svsem.antt =====
-- svsem/binary_sems.c and svsem/event_flags.c: binary semaphores and event flags out of System V
-- semaphores. The semaphore sets are the kernel's, and a parameter.
use the_linux_programming_in.Prelude.{
  ℕ, suc, ◌+◌, ◌≡◌, ◌≢◌, Bool, true, false, Option, none, some, ℤ, pos, negsuc, ◌==◌, if◌then◌else◌,
}

-- `struct sembuf`, where SEM_UNDO is the only flag
pub record Sembuf : Type 0 where
  pub sem_num : ℕ
  pub sem_op : ℤ
  pub sem_undo : Bool

-- What comes of a semop() call: it is performed, if the values of the semaphores allow it, or it
-- returns -1 with EINTR or with another error.
pub data SemEvent : Type 0 where
  performed interrupted sem_error : SemEvent

-- A semaphore set: the values that GETVAL returns; an operation that can be performed now, or waits
-- (`none`); SETVAL, which may fail (`none`).
pub record Kernel : Type 1 where
  pub State : Type 0
  pub value : State → ℕ → ℕ
  pub operate : Sembuf → State → Option State
  pub set_value : ℕ → ℕ → State → Option State

-- `bsUseSemUndo` and `bsRetryOnEintr`
pub record Settings : Type 0 where
  pub use_sem_undo : Bool
  pub retry_on_eintr : Bool

abbrev pub default_settings : Settings
default_settings = record { use_sem_undo = false; retry_on_eintr = true }

-- Where a function with a semop() stands after an event: it waits in the call, or has returned 0 or -1.
pub data Called (S : Type 0) : Type 0 where
  waits : Called S
  returned_0 : S → Called S
  returned_minus_1 : Called S

abbrev pub of_operation : {S : Type 0} → Option S → Called S
of_operation none = waits
of_operation (some s) = returned_0 s

module _ (k : Kernel) where
  open k use {State, operate, set_value}

  unfoldable pub init_sem_available : ℕ → State → Option State
  init_sem_available sem_num s = set_value sem_num 1 s

  unfoldable pub init_sem_in_use : ℕ → State → Option State
  init_sem_in_use sem_num s = set_value sem_num 0 s

  -- The loop of `reserveSem` at an event of its semop()
  unfoldable pub reserve_sem : Settings → ℕ → SemEvent → State → Called State
  reserve_sem b sem_num performed s =
      of_operation
        (operate (record { sem_num = sem_num; sem_op = negsuc 0; sem_undo = b.use_sem_undo }) s)
  reserve_sem b sem_num interrupted s = if b.retry_on_eintr then waits else returned_minus_1
  reserve_sem b sem_num sem_error s = returned_minus_1

  unfoldable pub release_sem : Settings → ℕ → SemEvent → State → Called State
  release_sem b sem_num performed s =
      of_operation
        (operate (record { sem_num = sem_num; sem_op = pos 1; sem_undo = b.use_sem_undo }) s)
  release_sem b sem_num interrupted s = returned_minus_1
  release_sem b sem_num sem_error s = returned_minus_1

  -- The loop of `waitForEventFlag`; it is restarted after EINTR in any case.
  unfoldable pub wait_for_event_flag : ℕ → SemEvent → State → Called State
  wait_for_event_flag sem_num performed s =
      of_operation (operate (record { sem_num = sem_num; sem_op = pos 0; sem_undo = false }) s)
  wait_for_event_flag sem_num interrupted s = waits
  wait_for_event_flag sem_num sem_error s = returned_minus_1

  unfoldable pub clear_event_flag : ℕ → State → Option State
  clear_event_flag sem_num s = set_value sem_num 1 s

  unfoldable pub set_event_flag : ℕ → State → Option State
  set_event_flag sem_num s = set_value sem_num 0 s

  -- `*isSet`, by what GETVAL returned
  unfoldable pub get_flag_state : ℕ → State → Bool
  get_flag_state sem_num s = k.value s sem_num == 0

-- semop(2) and semctl(2): an operation changes no other semaphore; 1 is added at once; -1 waits for a
-- value above 0 and takes 1 from it; 0 waits for the value 0. SETVAL, if it succeeds, sets the value.
pub record IsKernel (k : Kernel) : Type 0 where
  pub up :
      (n : ℕ) (u : Bool) (s : k.State)
      → (t : k.State) × (k.operate (record { sem_num = n; sem_op = pos 1; sem_undo = u }) s
          ≡ some t)
        × ((m : ℕ) → k.value t m ≡ (if m == n then k.value s m + 1 else k.value s m))
  pub down :
      (n v : ℕ) (u : Bool) (s : k.State)
      → k.value s n ≡ suc v
      → (t : k.State) × (k.operate (record { sem_num = n; sem_op = negsuc 0; sem_undo = u }) s
          ≡ some t)
        × ((m : ℕ) → k.value t m ≡ (if m == n then v else k.value s m))
  pub down_waits :
      (n : ℕ) (u : Bool) (s : k.State)
      → k.value s n ≡ 0
      → k.operate (record { sem_num = n; sem_op = negsuc 0; sem_undo = u }) s ≡ none
  pub zero :
      (n : ℕ) (u : Bool) (s : k.State)
      → k.value s n ≡ 0
      → (t : k.State) × (k.operate (record { sem_num = n; sem_op = pos 0; sem_undo = u }) s
          ≡ some t)
        × ((m : ℕ) → k.value t m ≡ k.value s m)
  pub zero_waits :
      (n : ℕ) (u : Bool) (s : k.State)
      → k.value s n ≢ 0
      → k.operate (record { sem_num = n; sem_op = pos 0; sem_undo = u }) s ≡ none
  pub sets :
      (n v m : ℕ) (s t : k.State)
      → k.set_value n v s ≡ some t
      → k.value t m ≡ (if m == n then v else k.value s m)
