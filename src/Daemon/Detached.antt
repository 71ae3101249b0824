-- ===== src/Daemon/Detached.antt =====
-- What a process has become behind becomeDaemon of daemons/become_daemon.c.
use the_linux_programming_in.Prelude.{
  not, ℕ, ◌≡◌, ◌≢◌, ◌≤◌, Bool, true, false, ◌&&◌, ◌||◌, Option, none, some, [], ◌∷◌, ltb,
  if◌then◌else◌,
}
use the_linux_programming_in.Daemon.{
  File, dev_null, Process, Flags, Calls, maxfd, mask_cleared, at_root, files_closed,
}

-- What is behind a descriptor at the end: /dev/null or what was there, or nothing
abbrev pub daemon_fd : Flags → Calls → (ℕ → Option File) → ℕ → Option File
daemon_fd flags c t fd =
    if not flags.no_reopen_std_fds && ltb fd 3
    then some dev_null
    else if not flags.no_close_files && ltb fd (maxfd c.open_max)
    then none
    else t fd

-- Process `q` in place of `p`: not the leader of its session or its process group, which are new, without a
-- terminal, with the mask, the directory and the files that the flags ask for
pub record IsDaemon (flags : Flags) (c : Calls) (p q : Process) : Type 0 where
  pub no_leader : (q.sid ≢ q.pid) × (q.pgid ≢ q.pid)
  pub new_session : c.first_fork ≡ some q.sid
  pub no_terminal : q.terminal ≡ none
  pub mask : q.umask ≡ (if flags.no_umask0 then p.umask else 0)
  pub directory :
      q.cwd ≡ (if flags.no_chdir then p.cwd else if c.chdir_works then b'/' ∷ [] else p.cwd)
  pub files : (fd : ℕ) → q.fds fd ≡ daemon_fd flags c p.fds fd

abbrev pub forks : Option ℕ → Bool
forks none = false
forks (some n) = true

-- Whether the calls that becomeDaemon looks at succeed
abbrev pub all_work : Flags → Calls → Bool
all_work flags c =
    forks c.first_fork
    && (forks c.second_fork
        && (flags.no_reopen_std_fds || (c.open_works && (c.dup_out_works && c.dup_err_works))))

-- What open() and fork() do: open() gives the lowest descriptor that is not open, and a new process has an
-- ID that neither the process nor its group has.
abbrev pub IsLowest : ((ℕ → Option File) → ℕ) → Type 0
IsLowest lowest = (t : ℕ → Option File) (fd : ℕ) → t fd ≡ none → lowest t ≤ fd

abbrev pub IsFresh : Calls → Process → Type 0
IsFresh c p =
    ((child : ℕ) → c.first_fork ≡ some child → child ≢ p.pgid)
    × ((leader child : ℕ)
        → c.first_fork ≡ some leader
        → c.second_fork ≡ some child
        → child ≢ leader)

-- What reopens the standard descriptors
abbrev reopens : Flags → Calls → Bool
reopens flags c = flags.no_reopen_std_fds || (c.open_works && (c.dup_out_works && c.dup_err_works))

abbrev std_fd : Flags → (ℕ → Option File) → ℕ → Option File
std_fd flags t fd = if not flags.no_reopen_std_fds && ltb fd 3 then some dev_null else t fd

module _ (lowest : (ℕ → Option File) → ℕ) (l : IsLowest lowest) where
  -- The last process, of the child `b` of the leader `a`
  last : Flags → Calls → Process → ℕ → ℕ → Process
  unfolding files_closed
  last flags c p a b = files_closed flags c (
      at_root flags c
        (mask_cleared flags (record p { pid = b; pgid = a; sid = a; terminal = none })))
