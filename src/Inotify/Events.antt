-- ===== src/Inotify/Events.antt =====
-- inotify/inotify_dtree.c, `processNextInotifyEvent`: one event of the buffer, or a pair of events that
-- tell of one rename, a function for each branch.
pub mod Rename
use the_linux_programming_in.Prelude.{
  ℕ, ◌+◌, ◌*◌, Bool, not, ◌&&◌, ◌||◌, Option, none, some, List, [], ◌∷◌, get_elem?, ltb, ◌==◌,
  if◌then◌else◌,
}
use the_linux_programming_in.Inotify.Cache.{
  FilePath, Watch, path_max, name_max, is_live, mark_cache_slot_empty, pathname_in_cache, join_path,
  rewrite_cached_paths,
}
use the_linux_programming_in.Inotify.Roots.{is_root_dir_path, zap_root_dir_path}
use the_linux_programming_in.Inotify.Tree.{
  dump_cache_to_log, find_watch_checked, watch_subtree, zap_subtree, reinitialize,
  check_cache_consistency,
}
use the_linux_programming_in.Inotify.Watcher.{Kernel, M, ◌>>=◌, ◌>>◌, pure, fault, gets, modify}

-- `mask & IN_…`, a flag for each bit that the program tests
pub record Mask : Type 0 where
  pub isdir : Bool
  pub create : Bool
  pub delete_self : Bool
  pub move_self : Bool
  pub moved_from : Bool
  pub moved_to : Bool
  pub ignored : Bool
  pub q_overflow : Bool
  pub unmount : Bool

-- `struct inotify_event`, -1 being `none` for the descriptor; `len` counts the name and its padding.
pub record Event : Type 0 where
  pub wd : Option ℕ
  pub mask : Mask
  pub cookie : ℕ
  pub len : ℕ
  pub name : FilePath

-- `sizeof(struct inotify_event)`
abbrev pub header_size : ℕ
header_size = 16

abbrev pub inotify_read_buf_len : ℕ
inotify_read_buf_len = 100 * (header_size + name_max + 1)

-- `sizeof(struct inotify_event) + ev->len`
abbrev pub ev_len : Event → ℕ
ev_len ev = header_size + ev.len

-- A branch returns to the caller at once (-1 is `none`), or goes on to the checks with `evLen`.
pub data Branch : Type 0 where
  leave : Option ℕ → Branch
  go_on : ℕ → Branch

-- The next event, if it begins before the end of the buffer
abbrev pub next_event : ℕ → ℕ → List Event → Option Event
next_event len buf_size [] = none
next_event len buf_size (nx ∷ rest) = if ltb len buf_size then some nx else none

-- `(nextEv->mask & IN_MOVED_TO) && (nextEv->cookie == ev->cookie)`
abbrev pub is_pair : Event → Event → Bool
is_pair ev nx = nx.mask.moved_to && nx.cookie == ev.cookie

module _ {K : Type 0} where
  -- `wlCache[slot]`, where the slot was set and lies in the array
  unfoldable pub found_entry : Option Watch → M K Watch
  found_entry none w = fault w
  found_entry (some e) w = pure e w

  unfoldable pub entry_at : Option ℕ → M K Watch
  unfolding found_entry
  entry_at none w = fault w
  entry_at (some j) w = found_entry (get_elem? w.cache j) w

  unfoldable pub mark_slot : Option ℕ → M K (Unit {0})
  unfolding entry_at mark_cache_slot_empty
  mark_slot none w = fault w
  mark_slot (some j) w =
      (entry_at (some j) >>= λ e.
      modify (λ v. record v { cache = mark_cache_slot_empty v.cache j }))
        w

  abbrev pub set_fd : ℕ → M K (Unit {0})
  set_fd fd = modify (λ w. record w { inotify_fd = fd })

  abbrev pub count_overflow : M K (Unit {0})
  count_overflow = modify (λ w. record w { overflow_cnt = w.overflow_cnt + 1 })

module _ (k : Kernel) where
  open k use {State}

  -- `*inotifyFd = reinitialize(*inotifyFd)`
  unfoldable pub rebuild : M State (Unit {0})
  rebuild = do old ← gets (λ w. w.inotify_fd); fd ← reinitialize k (some old); set_fd fd

  -- The cache has reached an inconsistent state: the rest of the buffer is discarded.
  unfoldable pub start_over : M State Branch
  unfolding rebuild
  start_over = rebuild >> pure (leave (some inotify_read_buf_len))

  -- IN_CREATE or IN_MOVED_TO of a directory
  unfoldable pub on_create : Option ℕ → Event → M State (Unit {0})
  unfolding entry_at pathname_in_cache join_path
  on_create slot ev = entry_at slot >>= λ e. λ w.
      let full_path = join_path (path_max + name_max) e.path ev.name in
      if pathname_in_cache w.cache full_path
      then pure tt w
      else watch_subtree k w.inotify_fd full_path w

  -- IN_DELETE_SELF
  unfoldable pub on_delete_self : Option ℕ → M State (Unit {0})
  unfolding entry_at mark_slot is_root_dir_path zap_root_dir_path
  on_delete_self slot = entry_at slot >>= λ e. λ w.
      if is_root_dir_path w.root_dir_paths e.path
      then (zap_root_dir_path e.path >> mark_slot slot) w
      else mark_slot slot w

  -- After `zapSubtree`, by its count
  unfoldable pub go_on_or_start_over : ℕ → Option ℕ → M State Branch
  unfolding start_over
  go_on_or_start_over len none w = start_over w
  go_on_or_start_over len (some n) w = pure (go_on len) w

  -- `zapSubtree` for a directory that has left the trees
  unfoldable pub zap_or_start_over : FilePath → ℕ → M State Branch
  unfolding zap_subtree go_on_or_start_over
  zap_or_start_over path len w = (zap_subtree k w.inotify_fd path >>= go_on_or_start_over len) w

  -- IN_MOVED_FROM with its IN_MOVED_TO, by the slot of the latter
  unfoldable pub rename_to : Option ℕ → Event → Event → Option ℕ → M State Branch
  unfolding entry_at start_over rewrite_cached_paths
  rename_to slot ev nx none w = start_over w
  rename_to slot ev nx (some j) w =
      (entry_at slot >>= λ e. entry_at (some j) >>= λ e'. λ v.
          pure (go_on (ev_len ev + ev_len nx))
            (record v { cache = rewrite_cached_paths v.cache e.path ev.name e'.path nx.name }))
        w

  unfoldable pub on_rename : Option ℕ → Event → Event → M State Branch
  unfolding find_watch_checked rename_to
  on_rename slot ev nx = find_watch_checked nx.wd >>= rename_to slot ev nx

  -- IN_MOVED_FROM on its own: out of the trees
  unfoldable pub on_moved_out : Option ℕ → Event → M State Branch
  unfolding entry_at join_path zap_or_start_over
  on_moved_out slot ev = entry_at slot >>= λ e.
      zap_or_start_over (join_path (path_max + name_max) e.path ev.name) (ev_len ev)

  -- IN_MOVED_FROM, by the next event of the buffer
  unfoldable pub moved_before : Option ℕ → Event → ℕ → Bool → Option Event → M State Branch
  unfolding on_rename on_moved_out
  moved_before slot ev buf_size first_try (some nx) w =
      if is_pair ev nx then on_rename slot ev nx w else on_moved_out slot ev w
  moved_before slot ev buf_size first_try none w =
      if ltb (ev_len ev) buf_size || not first_try
      then on_moved_out slot ev w
      else pure (leave none) w

  unfoldable pub on_moved_from : Option ℕ → Event → List Event → ℕ → Bool → M State Branch
  unfolding moved_before
  on_moved_from slot ev rest buf_size first_try =
      moved_before slot ev buf_size first_try (next_event (ev_len ev) buf_size rest)

  -- IN_Q_OVERFLOW
  unfoldable pub on_overflow : M State Branch
  unfolding rebuild
  on_overflow = do count_overflow; rebuild; pure (go_on inotify_read_buf_len)

  -- IN_MOVE_SELF
  unfoldable pub on_move_self : Option ℕ → Event → M State Branch
  unfolding entry_at is_root_dir_path zap_root_dir_path zap_or_start_over
  on_move_self slot ev = entry_at slot >>= λ e. λ w.
      if is_root_dir_path w.root_dir_paths e.path
      then (zap_root_dir_path e.path >> zap_or_start_over e.path (ev_len ev)) w
      else pure (go_on (ev_len ev)) w

  -- The chain of tests on the mask
  unfoldable pub dispatch : Option ℕ → Event → List Event → ℕ → Bool → M State Branch
  unfolding on_create on_delete_self on_moved_from on_overflow mark_slot on_move_self
  dispatch slot ev rest buf_size first_try w =
      let m = ev.mask in
      if m.isdir && (m.create || m.moved_to)
      then (on_create slot ev >> pure (go_on (ev_len ev))) w
      else if m.delete_self
      then (on_delete_self slot >> pure (go_on (ev_len ev))) w
      else if m.moved_from && m.isdir
      then on_moved_from slot ev rest buf_size first_try w
      else if m.q_overflow
      then on_overflow w
      else if m.unmount
      then (mark_slot slot >> pure (go_on (ev_len ev))) w
      else if m.move_self
      then on_move_self slot ev w
      else pure (go_on (ev_len ev)) w

  abbrev pub check_if_asked : M State (Unit {0})
  check_if_asked w = if w.check_cache then check_cache_consistency k w else pure tt w

  abbrev pub dump_if_asked : M State (Unit {0})
  dump_if_asked w = if w.dump_cache then dump_cache_to_log w else pure tt w

  -- The checks behind the chain
  unfoldable pub finish : Branch → M State (Option ℕ)
  unfolding check_cache_consistency dump_cache_to_log
  finish (leave r) w = pure r w
  finish (go_on len) w = (check_if_asked >> dump_if_asked >> pure (some len)) w

  -- The rest of the function, by what `findWatchChecked` returned
  unfoldable pub process_checked : Event → List Event → ℕ → Bool → Option ℕ → M State (Option ℕ)
  unfolding dispatch finish start_over
  process_checked ev rest buf_size first_try none w = (start_over >>= finish) w
  process_checked ev rest buf_size first_try (some j) w =
      (dispatch (some j) ev rest buf_size first_try >>= finish) w

  -- `evCacheSlot` is set only for an event of a watch that is not IN_IGNORED. The result is the bytes
  -- consumed, -1 being `none`.
  unfoldable pub process_next_inotify_event : Event → List Event → ℕ → Bool → M State (Option ℕ)
  unfolding dispatch finish process_checked find_watch_checked
  process_next_inotify_event ev rest buf_size first_try w =
      if is_live ev.wd && not ev.mask.ignored
      then (find_watch_checked ev.wd >>= process_checked ev rest buf_size first_try) w
      else (dispatch none ev rest buf_size first_try >>= finish) w
