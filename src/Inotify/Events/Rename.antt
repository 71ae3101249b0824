-- ===== src/Inotify/Events/Rename.antt =====
-- A rename within the trees, as `processNextInotifyEvent` of inotify/inotify_dtree.c sees it: IN_MOVED_FROM and
-- the IN_MOVED_TO behind it.
use the_linux_programming_in.Prelude.{ℕ, ◌≡◌, true, false, some, get_elem?}
use the_linux_programming_in.Inotify.Cache.{Watch, is_live, find_watch, rewrite_cached_paths}
use the_linux_programming_in.Inotify.Watcher.{Kernel, Watcher}
use the_linux_programming_in.Inotify.Events.{Event, is_pair}

-- The event is an IN_MOVED_FROM of a directory, of a watch in slot `i`; `nx` is its IN_MOVED_TO, of a
-- watch in slot `j`.
pub record IsRename {K : Type 0} (w : Watcher K) (ev nx : Event) (e e' : Watch) : Type 0 where
  pub live : is_live ev.wd ≡ true
  pub ignored : ev.mask.ignored ≡ false
  pub isdir : ev.mask.isdir ≡ true
  pub create : ev.mask.create ≡ false
  pub moved_to : ev.mask.moved_to ≡ false
  pub delete_self : ev.mask.delete_self ≡ false
  pub moved_from : ev.mask.moved_from ≡ true
  pub pair : is_pair ev nx ≡ true
  pub from : (i : ℕ) × (find_watch w.cache ev.wd ≡ some i) × (get_elem? w.cache i ≡ some e)
  pub to : (j : ℕ) × (find_watch w.cache nx.wd ≡ some j) × (get_elem? w.cache j ≡ some e')

module _ (k : Kernel) (w : Watcher k.State) (ev nx : Event) (e e' : Watch)
    (h : IsRename w ev nx e e') where
  abbrev renamed : Watcher k.State
  renamed = record w { cache = rewrite_cached_paths w.cache e.path ev.name e'.path nx.name }
