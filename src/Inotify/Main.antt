-- ===== src/Inotify/Main.antt =====
-- inotify/inotify_dtree.c, `main`: the options, the first build of the cache, and the loop over the
-- terminal and the inotify descriptor.
pub mod Runs
use the_linux_programming_in.Prelude.{
  ℤ, pos, negsuc, ℕ, zero, suc, Bool, true, false, Option, none, some, List, [], ◌∷◌, if◌then◌else◌,
}
use the_linux_programming_in.Inotify.Cache.{FilePath}
use the_linux_programming_in.Syscall.{ReadResult}
use the_linux_programming_in.Inotify.Watcher.{
  Kernel, Watcher, exit_failure, M, ◌>>=◌, ◌>>◌, pure, exit, fault, modify, call,
}
use the_linux_programming_in.Inotify.Roots.{copy_root_dir_paths}
use the_linux_programming_in.Inotify.Tree.{reinitialize}
use the_linux_programming_in.Inotify.Events.{set_fd}
use the_linux_programming_in.Inotify.Loop.{
  Read, Progress, finished, waiting, stuck, process_inotify_events,
}
use the_linux_programming_in.Inotify.Commands.{execute_command}

-- What getopt() returns, with `optarg`
pub data Opt : Type 0 where
  opt_a : Opt
  opt_x : Opt
  opt_d : Opt
  opt_v : List ℕ → Opt
  opt_b : List ℕ → Opt
  opt_l : FilePath → Opt
  opt_other : Opt

-- What select() reports, with what the reads that follow will return
pub record Ready : Type 0 where
  pub stdin : Option (ReadResult (List ℕ))
  pub inotify : Option (Read × List Read)

-- The variables as the program starts
abbrev pub initial : {K : Type 0} → K → Watcher K
initial s = record {
  cache = [];
  root_dir_paths = [];
  root_dir_stat = [];
  ignore_root_dirs = 0;
  dir_cnt = 0;
  reinit_cnt = 0;
  overflow_cnt = 0;
  inotify_read_cnt = 0;
  verbose_mask = pos 0;
  check_cache = false;
  dump_cache = false;
  read_buffer_size = 0;
  abort_on_cache_problem = false;
  has_log = false;
  inotify_fd = 0;
  kernel = s;
}

-- A size that is negative is used as 0 is.
abbrev pub size_of : ℤ → ℕ
size_of (pos n) = n
size_of (negsuc n) = 0

module _ {K : Type 0} where
  abbrev pub log_opened : Bool → M K (Unit {0})
  log_opened true w = pure tt (record w { has_log = true })
  log_opened false w = exit exit_failure w

  -- What is left of the events waits in the kernel; the loop over them does not run out of fuel.
  abbrev pub after_events : Progress → M K (Unit {0})
  after_events finished w = pure tt w
  after_events waiting w = pure tt w
  after_events stuck w = fault w

module _ (k : Kernel) where
  open k use {State, atoi, open_log}

  unfoldable pub set_option : Opt → M State (Unit {0})
  set_option opt_a w = pure tt (record w { abort_on_cache_problem = true })
  set_option opt_x w = pure tt (record w { check_cache = true })
  set_option opt_d w = pure tt (record w { dump_cache = true })
  set_option (opt_v arg) w = pure tt (record w { verbose_mask = atoi arg })
  set_option (opt_b arg) w = pure tt (record w { read_buffer_size = size_of (atoi arg) })
  set_option (opt_l file) w = (call (open_log file) >>= log_opened) w
  set_option opt_other w = exit exit_failure w

  unfoldable pub set_options : List Opt → M State (Unit {0})
  unfolding set_option
  set_options [] w = pure tt w
  set_options (o ∷ os) w = (set_option o >> set_options os) w

  -- `if (optind >= argc) usageError(…)`
  abbrev pub need_dirs : List FilePath → M State (Unit {0})
  need_dirs [] w = exit exit_failure w
  need_dirs (d ∷ ds) w = pure tt w

  -- `main` up to its loop
  unfoldable pub start : List Opt → List FilePath → M State (Unit {0})
  unfolding set_options copy_root_dir_paths reinitialize
  start opts dirs = do
    set_options opts
    need_dirs dirs
    copy_root_dir_paths k dirs
    fd ← reinitialize k none
    set_fd fd

  abbrev pub on_stdin : Option (ReadResult (List ℕ)) → M State (Unit {0})
  on_stdin none w = pure tt w
  on_stdin (some r) w = execute_command k r w

  abbrev pub on_inotify : Option (Read × List Read) → M State (Unit {0})
  on_inotify none w = pure tt w
  on_inotify (some (r, rs)) w = (process_inotify_events k r rs >>= after_events) w

  -- The loop of `main`, over what select() reports each time
  unfoldable pub main_loop : List Ready → M State (Unit {0})
  unfolding execute_command process_inotify_events
  main_loop [] w = pure tt w
  main_loop (r ∷ rs) w = (on_stdin r.stdin >> on_inotify r.inotify >> main_loop rs) w

  -- The whole of `main`, for a number of rounds of its loop
  unfoldable pub main : List Opt → List FilePath → List Ready → M State (Unit {0})
  unfolding start main_loop
  main opts dirs rs = start opts dirs >> main_loop rs
