-- ===== src/Inotify/Invariant.antt =====
-- The invariant of the state of inotify/inotify_dtree.c; its children prove that the functions keep it
-- and leave nothing undefined.
pub mod Trees
pub mod Slots
pub mod Handlers
pub mod Process
use the_linux_programming_in.Prelude.{
  ℕ, ◌+◌, ◌<◌, ◌≤◌, ◌≡◌, false, Bool, ◌||◌, Option, none, some, List, [], ◌∷◌, length,
}
use the_linux_programming_in.Inotify.Cache.{FilePath}
use the_linux_programming_in.Inotify.Cache.View.{IsUnique}
use the_linux_programming_in.Inotify.Watcher.{Watcher, vb_noisy}
use the_linux_programming_in.Inotify.Events.{inotify_read_buf_len}

abbrev pub zapped : List (Option FilePath) → ℕ
zapped [] = 0
zapped (none ∷ ps) = 1 + zapped ps
zapped (some p ∷ ps) = zapped ps

-- There is a log file, or `dumpCacheToLog` or `createStopFileAndAbort` may write to one, or noisy messages
-- are printed.
abbrev pub speaks : {K : Type 0} → Watcher K → Bool
speaks w = w.has_log || (w.abort_on_cache_problem || (w.dump_cache || vb_noisy w.verbose_mask))

-- No descriptor stands in two slots; `ignoreRootDirs` counts the roots that were zapped, and some
-- root is left; nothing is written to a log file and no noisy message is printed, in which
-- `markCacheSlotEmpty` would show slots that were never set; the size set for read() is not above that of
-- the array.
pub record IsConsistent {K : Type 0} (w : Watcher K) : Type 0 where
  pub unique : IsUnique w.cache
  pub counted : w.ignore_root_dirs ≡ zapped w.root_dir_paths
  pub watching : w.ignore_root_dirs < length w.root_dir_paths
  pub quiet : speaks w ≡ false
  pub sized : w.read_buffer_size ≤ inotify_read_buf_len
