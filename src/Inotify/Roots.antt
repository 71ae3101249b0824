-- ===== src/Inotify/Roots.antt =====
-- inotify/inotify_dtree.c, the directories of the command line: `rootDirPaths` and its functions.
pub mod Copy
use the_linux_programming_in.Prelude.{
  ℕ, zero, ◌+◌, Bool, false, ◌&&◌, ◌||◌, Option, none, some, List, [], ◌∷◌, ◌++◌, length, set, ◌==◌,
  if◌then◌else◌,
}
use the_linux_programming_in.CString.{str_eq}
use the_linux_programming_in.Inotify.Cache.{FilePath, next_slot, is_live}
use the_linux_programming_in.Inotify.Watcher.{
  Stat, Kernel, Watcher, exit_success, exit_failure, M, ◌>>=◌, ◌>>◌, pure, exit, modify, call,
}

-- The index of the element, for its address
unfoldable pub find_root_dir_path : List (Option FilePath) → FilePath → Option ℕ
unfolding str_eq
find_root_dir_path [] path = none
find_root_dir_path (none ∷ ps) path = next_slot (find_root_dir_path ps path)
find_root_dir_path (some p ∷ ps) path =
    if str_eq path p then some zero else next_slot (find_root_dir_path ps path)

unfoldable pub is_root_dir_path : List (Option FilePath) → FilePath → Bool
unfolding find_root_dir_path
is_root_dir_path paths path = is_live (find_root_dir_path paths path)

-- `rootDirStat[j]` and `rootDirStat[k]` are the same filesystem object.
abbrev pub same_object : Stat → Stat → Bool
same_object a b = a.st_ino == b.st_ino && a.st_dev == b.st_dev

abbrev pub seen_before : Stat → List Stat → Bool
seen_before sb [] = false
seen_before sb (s ∷ ss) = same_object sb s || seen_before sb ss

module _ {K : Type 0} where
  -- `*p = NULL; ignoreRootDirs++`, and the end of the program with the last path
  unfoldable pub zap_slot : ℕ → M K (Unit {0})
  zap_slot j w =
      if w.ignore_root_dirs + 1 == length w.root_dir_paths
      then exit exit_success w
      else pure tt (record w {
        root_dir_paths = set w.root_dir_paths j none;
        ignore_root_dirs = w.ignore_root_dirs + 1;
      })

  -- `zapRootDirPath`, by what `findRootDirPath` returned
  unfoldable pub zap_found : Option ℕ → M K (Unit {0})
  unfolding zap_slot
  zap_found none w = exit exit_failure w
  zap_found (some j) w = zap_slot j w

  unfoldable pub zap_root_dir_path : FilePath → M K (Unit {0})
  unfolding find_root_dir_path zap_found
  zap_root_dir_path path w = zap_found (find_root_dir_path w.root_dir_paths path) w

  -- `rootDirPaths[j]` and `rootDirStat[j]` are set, the arrays being filled from the left.
  abbrev pub push_root : FilePath → Stat → Watcher K → Watcher K
  push_root p sb w = record w {
    root_dir_paths = w.root_dir_paths ++ some p ∷ [];
    root_dir_stat = w.root_dir_stat ++ sb ∷ [];
  }

  unfoldable pub on_arg : Option Stat → M K ℕ → M K ℕ
  on_arg none rest w = exit exit_failure w
  on_arg (some sb) rest w = if sb.is_dir then rest w else exit exit_failure w

  unfoldable pub on_copy : FilePath → Option Stat → M K (Unit {0})
  on_copy p none w = exit exit_failure w
  on_copy p (some sb) w =
      if seen_before sb w.root_dir_stat then exit exit_failure w else pure tt (push_root p sb w)

  abbrev pub no_roots : M K (Unit {0})
  no_roots = modify (λ w. record w { root_dir_paths = []; root_dir_stat = [] })

  abbrev pub none_ignored : M K (Unit {0})
  none_ignored = modify (λ w. record w { ignore_root_dirs = 0 })

module _ (k : Kernel) where
  open k use {State, lstat}

  -- The first loop of `copyRootDirPaths`: the count of the arguments, each a directory
  unfoldable pub check_args : List FilePath → M State ℕ
  unfolding on_arg
  check_args [] w = pure 0 w
  check_args (p ∷ ps) w =
      let rest = (check_args ps >>= λ n. pure (n + 1)) in
      (call (lstat p) >>= λ st. on_arg st rest) w

  -- The second loop: copies, and no filesystem object twice
  unfoldable pub copy_args : List FilePath → M State (Unit {0})
  unfolding on_copy
  copy_args [] w = pure tt w
  copy_args (p ∷ ps) w =
      let rest = copy_args ps in (call (lstat p) >>= λ st. on_copy p st >> rest) w

  unfoldable pub copy_root_dir_paths : List FilePath → M State (Unit {0})
  unfolding check_args copy_args
  copy_root_dir_paths argv = do n ← check_args argv; no_roots; copy_args argv; none_ignored
