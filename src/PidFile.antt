-- ===== src/PidFile.antt =====
-- filelock/create_pid_file.c: a file that holds the process ID of the one running instance of a program.
-- Any number of processes call createPidFile() at once; they are numbered by their process IDs. A state
-- has the file with its lock, which lockRegion() asks for, and the place where each process stands.
pub mod Instance
use the_linux_programming_in.Prelude.{
  ℕ, ◌+◌, ◌≡◌, Bool, true, false, Option, none, some, List, [], ◌∷◌, ◌++◌, length, take, drop, ◌==◌,
  if◌then◌else◌,
}
use the_linux_programming_in.CString.{snprintf}

abbrev pub buf_size : ℕ
buf_size = 100

-- Before open(), the two calls of fcntl() for the close-on-exec flag, lockRegion(), ftruncate() and
-- write(); behind the return; and after the end of the process, with an error or later
pub data Place : Type 0 where
  opens gets_flags sets_flags locks truncates writes returned ended : Place

-- The content of the file, and the process that has locked it, if one has
pub record PidFile : Type 0 where
  pub bytes : List ℕ
  pub owner : Option ℕ

pub record State : Type 0 where
  pub file : PidFile
  pub place : ℕ → Place

-- What comes of the next call: it succeeds, where a write() takes at most so many bytes, or it fails. A
-- process that has returned goes on, or ends.
pub data Event : Type 0 where
  succeeds : ℕ → Event
  fails : Event

abbrev pub owner_is : ℕ → Option ℕ → Bool
owner_is pid none = false
owner_is pid (some owner) = owner == pid

-- A lock ends with its process.
abbrev pub release : ℕ → PidFile → PidFile
release pid f = record f { owner = if owner_is pid f.owner then none else f.owner }

-- `lockRegion(fd, F_WRLCK, SEEK_SET, 0, 0)`, on the whole file and without a wait
abbrev pub lock_region : ℕ → PidFile → Option ℕ → Place × PidFile
lock_region pid f none = (truncates, record f { owner = some pid })
lock_region pid f (some owner) = if owner == pid then (truncates, f) else (ended, f)

-- What write() of `text` at the start of the file leaves, if it takes `n` bytes
abbrev pub written : ℕ → List ℕ → List ℕ → List ℕ
written n text bytes = take n text ++ drop (length (take n text)) bytes

module _ (pid_text : ℕ → List ℕ) where
  -- `snprintf(buf, BUF_SIZE, "%ld\n", (long) getpid())`
  unfoldable pub line_of : ℕ → List ℕ
  unfolding snprintf
  line_of pid = snprintf buf_size (pid_text pid ++ b'\n' ∷ [])

  -- `if (write(fd, buf, strlen(buf)) != strlen(buf)) fatal(…)`
  unfoldable pub write_pid : ℕ → ℕ → PidFile → Place × PidFile
  unfolding line_of
  write_pid pid n f =
      let f' = record f { bytes = written n (line_of pid) f.bytes } in
      if length (take n (line_of pid)) == length (line_of pid)
      then (returned, f')
      else (ended, release pid f')

  module _ (cloexec : Bool) where
    -- The next call of process `pid`
    unfoldable pub move : ℕ → Event → Place → PidFile → Place × PidFile
    unfolding write_pid
    move pid (succeeds n) opens f = (if cloexec then gets_flags else locks, f)
    move pid (succeeds n) gets_flags f = (sets_flags, f)
    move pid (succeeds n) sets_flags f = (locks, f)
    move pid (succeeds n) locks f = lock_region pid f f.owner
    move pid (succeeds n) truncates f = (writes, record f { bytes = [] })
    move pid (succeeds n) writes f = write_pid pid n f
    move pid (succeeds n) returned f = (returned, f)
    move pid (succeeds n) ended f = (ended, f)
    move pid fails p f = (ended, release pid f)

    unfoldable pub run : ℕ → Event → State → State
    unfolding move
    run pid e s =
        let r = move pid e (s.place pid) s.file in
        record { file = r.1; place = λ j. if j == pid then r.0 else s.place j }

    pub data Reach (s : State) : State → Type 0 where
      here : Reach s s
      next : {t : State} → Reach s t → (pid : ℕ) (e : Event) → Reach s (run pid e t)

-- No process has called the function yet; an old file may be there.
abbrev pub start : List ℕ → State
start bytes = record { file = record { bytes = bytes; owner = none }; place = λ pid. opens }
