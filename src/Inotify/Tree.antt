-- ===== src/Inotify/Tree.antt =====
-- inotify/inotify_dtree.c, the functions that add watches for a tree, remove them and rebuild the cache:
-- `traverseTree`, `watchDir`, `watchSubtree`, `zapSubtree`, `reinitialize`, and the checks of the cache.
pub mod Zap
use the_linux_programming_in.Prelude.{
  ℕ, ◌+◌, ◌&&◌, Option, none, some, List, [], ◌∷◌, if◌then◌else◌,
}
use the_linux_programming_in.Inotify.Cache.{
  FilePath, Watch, is_live, empty_watch, free_cache, needs_room, find_watch, add_watch_to_cache,
  in_subtree,
}
use the_linux_programming_in.Inotify.Roots.{is_root_dir_path}
use the_linux_programming_in.Inotify.Watcher.{
  Stat, Visit, AddResult, added, enoent, failed, Kernel, exit_failure, aborted, M, ◌>>=◌, ◌>>◌,
  logs_noisy, pure, exit, fault, gets, modify, call,
}

module _ {K : Type 0} where
  -- `fprintf(logfp, …)` for the live slots and their number; what is printed is not modelled.
  unfoldable pub dump_cache_to_log : M K (Unit {0})
  dump_cache_to_log w = if w.has_log then pure tt w else fault w

  unfoldable pub create_stop_file_and_abort : {A : Type 0} → M K A
  unfolding dump_cache_to_log
  create_stop_file_and_abort w = (dump_cache_to_log >> exit aborted) w

  -- `findWatchChecked`, by what `findWatch` returned
  unfoldable pub checked : Option ℕ → M K (Option ℕ)
  unfolding create_stop_file_and_abort
  checked (some slot) w = pure (some slot) w
  checked none w = if w.abort_on_cache_problem then create_stop_file_and_abort w else pure none w

  unfoldable pub find_watch_checked : Option ℕ → M K (Option ℕ)
  unfolding find_watch checked
  find_watch_checked wd w = checked (find_watch w.cache wd) w

  -- `markCacheSlotEmpty` of the slots that `findEmptyCacheSlot` makes: their `wd` and `path`, which were
  -- never set, are printed, if anything is.
  unfoldable pub log_new_slots : M K (Unit {0})
  unfolding needs_room
  log_new_slots w = if needs_room w.cache && logs_noisy w then fault w else pure tt w

  -- `dirCnt++` and `addWatchToCache`
  unfoldable pub add_watch : ℕ → FilePath → M K (Unit {0})
  unfolding add_watch_to_cache
  add_watch wd pathname = modify (λ w. record w {
    dir_cnt = w.dir_cnt + 1;
    cache = (add_watch_to_cache w.cache wd pathname).1;
  })

  -- The end of `traverseTree`: only a descriptor that is not yet in the cache gets an entry.
  unfoldable pub cache_new_watch : ℕ → FilePath → M K (Unit {0})
  unfolding find_watch log_new_slots add_watch
  cache_new_watch wd pathname w =
      if is_live (find_watch w.cache (some wd))
      then pure tt w
      else (log_new_slots >> add_watch wd pathname) w

  -- `traverseTree`, by what inotify_add_watch() returned
  unfoldable pub on_add_result : FilePath → AddResult → M K (Unit {0})
  unfolding cache_new_watch
  on_add_result pathname (added wd) w = cache_new_watch wd pathname w
  on_add_result pathname enoent w = pure tt w
  on_add_result pathname failed w = exit exit_failure w

  -- A check of one path by its lstat() result: a path that is gone is logged, one that is no
  -- directory ends the program.
  unfoldable pub on_stat : Option Stat → M K (Unit {0}) → M K (Unit {0})
  on_stat none rest w = rest w
  on_stat (some sb) rest w = if sb.is_dir then rest w else exit exit_failure w

  abbrev pub reset_dir_cnt : M K (Unit {0})
  reset_dir_cnt = modify (λ w. record w { dir_cnt = 0 })

-- What the loop of `zapSubtree` leaves: the slots, the count or -1, the kernel's state.
pub record Zapped (K : Type 0) : Type 0 where
  pub slots : List Watch
  pub cnt : Option ℕ
  pub after : K

abbrev pub with_slot : {K : Type 0} → Watch → Zapped K → Zapped K
with_slot e z = record { slots = e ∷ z.slots; cnt = z.cnt; after = z.after }

-- The descriptor of a live slot
abbrev pub descriptor : Option ℕ → ℕ
descriptor none = 0
descriptor (some wd) = wd

module _ (k : Kernel) where
  open k use {State, inotify_init, close, inotify_add_watch, inotify_rm_watch, nftw, lstat}

  unfoldable pub traverse_tree : ℕ → Visit → M State (Unit {0})
  unfolding is_root_dir_path on_add_result
  traverse_tree ifd v w =
      if v.is_dir
      then (call (inotify_add_watch ifd v.pathname (is_root_dir_path w.root_dir_paths v.pathname))
            >>= on_add_result v.pathname)
          w
      else pure tt w

  -- nftw() calls `traverseTree`, which always returns 0, for each visit.
  unfoldable pub traverse_all : ℕ → List Visit → M State (Unit {0})
  traverse_all ifd [] w = pure tt w
  traverse_all ifd (v ∷ vs) w = (traverse_tree ifd v >> traverse_all ifd vs) w

  unfoldable pub watch_dir : ℕ → FilePath → M State ℕ
  unfolding traverse_all
  watch_dir fd pathname = do
    reset_dir_cnt
    visits ← call (nftw pathname)
    traverse_all fd visits
    gets (λ w. w.dir_cnt)

  unfoldable pub watch_subtree : ℕ → FilePath → M State (Unit {0})
  unfolding watch_dir
  watch_subtree fd path = do cnt ← watch_dir fd path; pure tt

  -- The loop of `zapSubtree` from some slot on; at a failure of inotify_rm_watch() it breaks.
  unfoldable pub zap_slots : ℕ → FilePath → List Watch → ℕ → State → Zapped State
  zap_slots fd pn [] cnt s = record { slots = []; cnt = some cnt; after = s }
  zap_slots fd pn (e ∷ es) cnt s =
      let (removed, s') = inotify_rm_watch fd (descriptor e.wd) s in
      let kept = with_slot e (zap_slots fd pn es cnt s) in
      let cleared = with_slot empty_watch (zap_slots fd pn es (cnt + 1) s') in
      if is_live e.wd && in_subtree pn e.path
      then if removed then cleared else record { slots = e ∷ es; cnt = none; after = s' }
      else kept

  unfoldable pub zap_subtree : ℕ → FilePath → M State (Option ℕ)
  zap_subtree fd path w =
      let z = zap_slots fd path w.cache 0 w.kernel in
      pure z.cnt (record w { cache = z.slots; kernel = z.after })

  -- The loop of `reinitialize` over the roots that are left
  unfoldable pub watch_roots : ℕ → List (Option FilePath) → M State (Unit {0})
  watch_roots fd [] w = pure tt w
  watch_roots fd (none ∷ ps) w = watch_roots fd ps w
  watch_roots fd (some p ∷ ps) w = (watch_subtree fd p >> watch_roots fd ps) w

  abbrev pub drop_old : Option ℕ → M State (Unit {0})
  drop_old none w = pure tt (record w { reinit_cnt = 0 })
  drop_old (some old) w =
      pure tt (record w { kernel = close old w.kernel; reinit_cnt = w.reinit_cnt + 1 })

  -- The rest of `reinitialize`, by what inotify_init() returned
  unfoldable pub watch_anew : Option ℕ → M State ℕ
  unfolding free_cache watch_roots
  watch_anew none w = exit exit_failure w
  watch_anew (some fd) w =
      (watch_roots fd w.root_dir_paths >>= λ _. pure fd) (record w { cache = free_cache w.cache })

  -- The argument -1 is `none`; the result is the new descriptor.
  unfoldable pub reinitialize : Option ℕ → M State ℕ
  unfolding watch_anew
  reinitialize old_inotify_fd = do drop_old old_inotify_fd; r ← call inotify_init; watch_anew r

  unfoldable pub check_slots : List Watch → M State (Unit {0})
  unfolding on_stat
  check_slots [] w = pure tt w
  check_slots (e ∷ es) w =
      let rest = check_slots es in
      if is_live e.wd then (call (lstat e.path) >>= λ st. on_stat st rest) w else rest w

  unfoldable pub check_cache_consistency : M State (Unit {0})
  unfolding check_slots
  check_cache_consistency w = check_slots w.cache w
