-- ===== src/Inotify/Commands.antt =====
-- inotify/inotify_dtree.c, `executeCommand`: a line of the terminal and what it does.
pub mod Keeps
use the_linux_programming_in.Prelude.{
  ℤ, pos, negsuc, ℕ, zero, suc, ◌+◌, ◌-◌, Bool, true, false, not, ◌&&◌, ◌||◌, Option, none, some,
  List, [], ◌∷◌, take, length, leb, ◌==◌, if◌then◌else◌,
}
use the_linux_programming_in.Inotify.Cache.{FilePath, Watch, is_live}
use the_linux_programming_in.Syscall.{ReadResult, got, eof, eintr, read_error}
use the_linux_programming_in.Inotify.Watcher.{
  Kernel, Watcher, exit_success, exit_failure, M, ◌>>=◌, ◌>>◌, pure, exit, fault, modify, call,
}
use the_linux_programming_in.Inotify.Tree.{watch_subtree, zap_subtree, reinitialize, check_slots}
use the_linux_programming_in.Inotify.Events.{set_fd}

-- The bytes up to the first null
unfoldable pub to_null : List ℕ → List ℕ
to_null [] = []
to_null (c ∷ cs) = if c == 0 then [] else c ∷ to_null cs

-- `line[numRead - 1] = '\0'`
unfoldable pub line_of : List ℕ → List ℕ
unfolding to_null
line_of bytes = to_null (take (length bytes - 1) bytes)

-- isspace() in the C locale, by which sscanf() tells words
abbrev pub is_space : ℕ → Bool
is_space c = c == b' ' || (leb 9 c && leb c 13)

unfoldable pub skip_space : List ℕ → List ℕ
skip_space [] = []
skip_space (c ∷ cs) = if is_space c then skip_space cs else c ∷ cs

unfoldable pub take_word : List ℕ → List ℕ
take_word [] = []
take_word (c ∷ cs) = if is_space c then [] else c ∷ take_word cs

abbrev pub word_or_none : List ℕ → Option FilePath
word_or_none [] = none
word_or_none (c ∷ cs) = some (c ∷ cs)

-- The second conversion of `sscanf(line, "%c %s\n", &cmd, arg)`; `none` leaves `arg` unset.
unfoldable pub argument : List ℕ → Option FilePath
unfolding skip_space take_word
argument rest = word_or_none (take_word (skip_space rest))

abbrev pub live_paths : List Watch → List FilePath
live_paths [] = []
live_paths (e ∷ es) = if is_live e.wd then e.path ∷ live_paths es else live_paths es

abbrev pub is_zero : ℤ → Bool
is_zero (pos n) = n == 0
is_zero (negsuc n) = false

module _ {K : Type 0} where
  -- A use of `arg`
  abbrev pub with_arg : Option FilePath → (FilePath → M K (Unit {0})) → M K (Unit {0})
  with_arg none f w = fault w
  with_arg (some arg) f w = f arg w

  abbrev pub toggle_dump : M K (Unit {0})
  toggle_dump = modify (λ w. record w { dump_cache = not w.dump_cache })

  abbrev pub toggle_check : M K (Unit {0})
  toggle_check = modify (λ w. record w { check_cache = not w.check_cache })

  abbrev pub set_verbose : ℤ → M K (Unit {0})
  set_verbose n = modify (λ w. record w { verbose_mask = n })

  -- Where fopen() has failed, `fp` is null and is used all the same.
  abbrev pub after_write : Bool → M K (Unit {0})
  after_write true w = pure tt w
  after_write false w = fault w

module _ (k : Kernel) where
  open k use {State, close, write_lines, atoi}

  unfoldable pub cmd_zap : FilePath → M State (Unit {0})
  unfolding zap_subtree
  cmd_zap arg w = (zap_subtree k w.inotify_fd arg >>= λ cnt. pure tt) w

  unfoldable pub cmd_add : FilePath → M State (Unit {0})
  unfolding cmd_zap watch_subtree
  cmd_add arg w = (cmd_zap arg >> watch_subtree k w.inotify_fd arg) w

  unfoldable pub cmd_verbose : Option FilePath → M State (Unit {0})
  cmd_verbose (some arg) w = set_verbose (atoi arg) w
  cmd_verbose none w = set_verbose (pos (if is_zero w.verbose_mask then 1 else 0)) w

  unfoldable pub cmd_write : FilePath → M State (Unit {0})
  cmd_write arg w = (call (write_lines arg (live_paths w.cache)) >>= after_write) w

  abbrev pub close_fd : M State (Unit {0})
  close_fd = modify (λ w. record w { kernel = close w.inotify_fd w.kernel })

  unfoldable pub cmd_rebuild : M State (Unit {0})
  unfolding reinitialize
  cmd_rebuild = close_fd >> (reinitialize k none >>= set_fd)

  -- The `switch`; 'c' and 'C' go through the cache as `checkCacheConsistency` does, 'l' and what is
  -- not recognised only print.
  unfoldable pub run_command : ℕ → Option FilePath → M State (Unit {0})
  unfolding cmd_zap cmd_add cmd_verbose cmd_write cmd_rebuild check_slots
  run_command cmd arg w =
      if cmd == b'a'
      then with_arg arg cmd_add w
      else if cmd == b'c' || cmd == b'C'
      then check_slots k w.cache w
      else if cmd == b'l'
      then pure tt w
      else if cmd == b'q'
      then exit exit_success w
      else if cmd == b'v'
      then cmd_verbose arg w
      else if cmd == b'd'
      then toggle_dump w
      else if cmd == b'x'
      then toggle_check w
      else if cmd == b'w'
      then with_arg arg cmd_write w
      else if cmd == b'z'
      then with_arg arg cmd_zap w
      else if cmd == b'0'
      then cmd_rebuild w
      else pure tt w

  unfoldable pub run_line : List ℕ → M State (Unit {0})
  unfolding run_command argument
  run_line [] w = pure tt w
  run_line (cmd ∷ rest) w = run_command cmd (argument rest) w

  -- By what read() returned for the terminal
  unfoldable pub execute_command : ReadResult (List ℕ) → M State (Unit {0})
  unfolding run_line line_of
  execute_command (got bytes) w = run_line (line_of bytes) w
  execute_command eof w = exit exit_failure w
  execute_command eintr w = exit exit_failure w
  execute_command read_error w = exit exit_failure w
