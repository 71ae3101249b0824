-- ===== src/Daemon/Tests.antt =====
-- The theorem on daemons/become_daemon.c at a concrete input.
use the_linux_programming_in.Prelude.{ℕ, true, false, Option, none, some, [], ◌∷◌}
use the_linux_programming_in.Daemon.{File, file, Process, Flags, Calls}

-- The first descriptor below 2 that is not open, or 2
abbrev free_or : Option File → ℕ → ℕ → ℕ
free_or none fd rest = fd
free_or (some f) fd rest = rest

abbrev first_free : (ℕ → Option File) → ℕ
first_free t = free_or (t 0) 0 (free_or (t 1) 1 2)

abbrev no_flags : Flags
no_flags = record {
  no_chdir = false;
  no_close_files = false;
  no_reopen_std_fds = false;
  no_umask0 = false;
}

abbrev calls : Calls
calls = record {
  first_fork = some 11;
  second_fork = some 12;
  chdir_works = true;
  open_max = some 64;
  open_works = true;
  dup_out_works = true;
  dup_err_works = true;
}

abbrev shell : Process
shell = record {
  pid = 10;
  pgid = 10;
  sid = 9;
  terminal = some 1;
  umask = 18;
  cwd = b'/' ∷ b'a' ∷ [];
  fds = λ fd. some (file fd);
}
