-- ===== src/Daemon.antt =====
-- daemons/become_daemon.c: the steps by which a process becomes a daemon. The model follows the process
-- that goes on after each fork(); the parent exits.
pub mod Detached
mod Tests
use the_linux_programming_in.Prelude.{
  ℕ, zero, suc, ◌≡◌, Bool, true, false, Option, none, some, List, [], ◌∷◌, ◌==◌, if◌then◌else◌,
}

-- What is open: a file of its own, by a number, or /dev/null
pub data File : Type 0 where
  file : ℕ → File
  dev_null : File

pub record Process : Type 0 where
  pub pid : ℕ
  pub pgid : ℕ
  pub sid : ℕ
  pub terminal : Option ℕ
  pub umask : ℕ
  pub cwd : List ℕ
  pub fds : ℕ → Option File

-- The bits BD_NO_CHDIR, BD_NO_CLOSE_FILES, BD_NO_REOPEN_STD_FDS and BD_NO_UMASK0
pub record Flags : Type 0 where
  pub no_chdir : Bool
  pub no_close_files : Bool
  pub no_reopen_std_fds : Bool
  pub no_umask0 : Bool

-- What comes of the calls: the process ID of the child, if there is one, for each fork(); the limit that
-- sysconf() gives, if it is determinate; and whether the others succeed
pub record Calls : Type 0 where
  pub first_fork : Option ℕ
  pub second_fork : Option ℕ
  pub chdir_works : Bool
  pub open_max : Option ℕ
  pub open_works : Bool
  pub dup_out_works : Bool
  pub dup_err_works : Bool

-- 0 or -1, with the process that returns
pub data Result : Type 0 where
  returns_0 returns_minus_1 : Process → Result

abbrev pub bd_max_close : ℕ
bd_max_close = 8192

abbrev pub forked : (Process → Result) → Process → Option ℕ → Result
forked next p none = returns_minus_1 p
forked next p (some child) = next (record p { pid = child })

-- setsid(), which fails for the leader of a process group, and leaves the terminal
abbrev pub set_sid : (Process → Result) → Process → Result
set_sid next p =
    if p.pid == p.pgid
    then returns_minus_1 p
    else next (record p { pgid = p.pid; sid = p.pid; terminal = none })

abbrev pub with_fd : ℕ → Option File → (ℕ → Option File) → ℕ → Option File
with_fd fd f t = λ g. if g == fd then f else t g

-- The loop of close(), up to a number of descriptors
unfoldable pub close_below : ℕ → (ℕ → Option File) → ℕ → Option File
close_below zero t = t
close_below (suc n) t = with_fd n none (close_below n t)

abbrev pub maxfd : Option ℕ → ℕ
maxfd none = bd_max_close
maxfd (some n) = n

abbrev pub mask_cleared : Flags → Process → Process
mask_cleared flags p = record p { umask = if flags.no_umask0 then p.umask else 0 }

-- The result of chdir() is not looked at.
abbrev pub at_root : Flags → Calls → Process → Process
at_root flags c p = record p {
  cwd = if flags.no_chdir then p.cwd else if c.chdir_works then b'/' ∷ [] else p.cwd;
}

unfoldable pub files_closed : Flags → Calls → Process → Process
unfolding close_below
files_closed flags c p = record p {
  fds = if flags.no_close_files then p.fds else close_below (maxfd c.open_max) p.fds;
}

-- The number that open() gives is a parameter.
module _ (lowest : (ℕ → Option File) → ℕ) where
  -- dup2() of the standard input
  abbrev pub duplicated : (Process → Result) → ℕ → Bool → Process → Result
  duplicated next fd false p = returns_minus_1 p
  duplicated next fd true p = next (record p { fds = with_fd fd (p.fds 0) p.fds })

  -- After close(STDIN_FILENO)
  abbrev pub opened : Calls → Process → Bool → Result
  opened c p false = returns_minus_1 p
  opened c p true =
      let fd = lowest p.fds in
      let q = record p { fds = with_fd fd (some dev_null) p.fds } in
      if fd == 0
      then duplicated (λ r. duplicated returns_0 2 c.dup_err_works r) 1 c.dup_out_works q
      else returns_minus_1 q

  unfoldable pub reopen : Flags → Calls → Process → Result
  reopen flags c p =
      if flags.no_reopen_std_fds
      then returns_0 p
      else opened c (record p { fds = with_fd 0 none p.fds }) c.open_works

  unfoldable pub become_daemon : Flags → Calls → Process → Result
  unfolding reopen files_closed
  become_daemon flags c p =
      forked
        (λ p1.
          set_sid
            (λ p2.
              forked
                (λ p3.
                  reopen flags c (files_closed flags c (at_root flags c (mask_cleared flags p3))))
                p2 c.second_fork)
            p1)
        p c.first_fork
