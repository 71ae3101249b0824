-- ===== src/Inotify/Watcher.antt =====
-- The state of inotify/inotify_dtree.c, the system calls that it makes as a parameter, and the ways in
-- which a function of it ends.
pub mod Rules
use the_linux_programming_in.Prelude.{
  ◌%◌, ◌/◌, ◌==◌, ◌||◌, ℤ, pos, negsuc, ℕ, Bool, true, false, Option, none, some, List,
}
use the_linux_programming_in.Inotify.Cache.{FilePath, Watch}

-- The fields of `struct stat` that the program reads
pub record Stat : Type 0 where
  pub is_dir : Bool
  pub st_ino : ℕ
  pub st_dev : ℕ

-- A visit that nftw() makes to the callback
pub record Visit : Type 0 where
  pub pathname : FilePath
  pub is_dir : Bool

-- What inotify_add_watch() returns: a descriptor, or -1 with `errno`
pub data AddResult : Type 0 where
  added : ℕ → AddResult
  enoent : AddResult
  failed : AddResult

-- The kernel and the C library, on a state of their own; they may change it, and other processes
-- with it, at every call. `none` is a failure.
pub record Kernel : Type 1 where
  pub State : Type 0
  pub inotify_init : State → Option ℕ × State
  pub close : ℕ → State → State
  -- descriptor, path, whether IN_MOVE_SELF is asked for
  pub inotify_add_watch : ℕ → FilePath → Bool → State → AddResult × State
  pub inotify_rm_watch : ℕ → ℕ → State → Bool × State
  -- the visits of nftw() with FTW_PHYS, in their order
  pub nftw : FilePath → State → List Visit × State
  pub lstat : FilePath → State → Option Stat × State
  -- fopen() for writing, a line for each path, fclose(); false if it cannot be opened
  pub write_lines : FilePath → List FilePath → State → Bool × State
  -- fopen() of the log file; false if it cannot be opened
  pub open_log : FilePath → State → Bool × State
  pub atoi : List ℕ → ℤ

-- The global and static variables, and `inotifyFd` of main(), which is passed by its address. A path
-- of `root_dir_paths` that was zapped is `none`; `has_log` is `logfp != NULL`.
pub record Watcher (K : Type 0) : Type 0 where
  pub cache : List Watch
  pub root_dir_paths : List (Option FilePath)
  pub root_dir_stat : List Stat
  pub ignore_root_dirs : ℕ
  pub dir_cnt : ℕ
  pub reinit_cnt : ℕ
  pub overflow_cnt : ℕ
  pub inotify_read_cnt : ℕ
  pub verbose_mask : ℤ
  pub check_cache : Bool
  pub dump_cache : Bool
  pub read_buffer_size : ℕ
  pub abort_on_cache_problem : Bool
  pub has_log : Bool
  pub inotify_fd : ℕ
  pub kernel : K

pub data Exit : Type 0 where
  exit_success exit_failure aborted : Exit

-- `undefined` is what C leaves undefined: a variable that was not set, an index out of range, a null
-- pointer that is followed.
pub data Outcome (K A : Type 0) : Type 0 where
  returned : A → Watcher K → Outcome K A
  exited : Exit → Outcome K A
  undefined : Outcome K A

abbrev pub M : Type 0 → Type 0 → Type 0
M K A = Watcher K → Outcome K A

-- `verboseMask & VB_NOISY`, the second bit
abbrev pub vb_noisy : ℤ → Bool
vb_noisy (pos n) = n / 2 % 2 == 1
vb_noisy (negsuc n) = n / 2 % 2 == 0

module _ {K : Type 0} where
  abbrev pub bind_outcome : {A B : Type 0} → Outcome K A → (A → M K B) → Outcome K B
  bind_outcome (returned a w) f = f a w
  bind_outcome (exited c) f = exited c
  bind_outcome undefined f = undefined

  infixl 5 ◌>>=◌ ◌>>◌
  abbrev pub ◌>>=◌ : {A B : Type 0} → M K A → (A → M K B) → M K B
  ◌>>=◌ m f w = bind_outcome (m w) f

  abbrev pub ◌>>◌ : {B : Type 0} → M K (Unit {0}) → M K B → M K B
  ◌>>◌ m k w = bind_outcome (m w) (λ _. k)

  -- logMessage(VB_NOISY, …) prints its text, to stderr or to the log file.
  abbrev pub logs_noisy : Watcher K → Bool
  logs_noisy w = w.has_log || vb_noisy w.verbose_mask

  abbrev pub pure : {A : Type 0} → A → M K A
  pure a w = returned a w

  abbrev pub exit : {A : Type 0} → Exit → M K A
  exit c w = exited c

  abbrev pub fault : {A : Type 0} → M K A
  fault w = undefined

  abbrev pub gets : {A : Type 0} → (Watcher K → A) → M K A
  gets f w = returned (f w) w

  abbrev pub modify : (Watcher K → Watcher K) → M K (Unit {0})
  modify f w = returned tt (f w)

  -- A system call
  abbrev pub call : {A : Type 0} → (K → A × K) → M K A
  call f w = let (a, s) = f w.kernel in returned a (record w { kernel = s })
