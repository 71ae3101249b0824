-- ===== src/Inotify/Invariant/Handlers.antt =====
-- `processNextInotifyEvent` of inotify/inotify_dtree.c keeps the invariant, and reads neither a slot that
-- was not set nor one outside the array.
use the_linux_programming_in.Inotify.Cache.Rename.{rewrite_cached_paths-IsUnique}
use the_linux_programming_in.Inotify.Events.{
  Event, go_on, ev_len, is_pair, next_event, entry_at, mark_slot, set_fd, count_overflow, rebuild,
  start_over, on_create, on_delete_self, go_on_or_start_over, zap_or_start_over, rename_to,
  on_rename, on_moved_out, moved_before, on_moved_from, on_overflow, on_move_self, dispatch,
}
use the_linux_programming_in.Inotify.Tree.{find_watch_checked, zap_subtree}
use the_linux_programming_in.Prelude.{
  ℕ, ◌+◌, ◌≡◌, refl, Bool, not, ◌&&◌, ◌||◌, Option, none, some, List, arith, ◌⊎◌, inl, inr, ltb,
}
use the_linux_programming_in.Inotify.Cache.{
  FilePath, path_max, name_max, join_path, pathname_in_cache,
}
use the_linux_programming_in.Inotify.Roots.{is_root_dir_path, zap_root_dir_path}
use the_linux_programming_in.Inotify.Watcher.{Kernel, Watcher, Outcome}
use the_linux_programming_in.Inotify.Watcher.Rules.{
  Keeps-pure, Keeps-bind, Returns, Returns-bind, Returns-if, Keeps, Keeps-modify, keeps_rules,
}
use the_linux_programming_in.Inotify.Invariant.{List, some, IsConsistent}
use the_linux_programming_in.Inotify.Invariant.Trees.{
  zap_subtree-Keeps, IsConsistent-same, watch_subtree-Keeps, reinitialize-Keeps,
}
use the_linux_programming_in.Inotify.Invariant.Slots.{
  find_watch_checked-Returns, HasSlot, zap_root_dir_path-Keeps, entry_at-Returns, mark_slot-Returns,
}

abbrev pub Fine : {K A : Type 0} → Outcome K A → Type 0
Fine o = Returns (λ _ v. IsConsistent v) o

module _ {K : Type 0} where
  pub set_fd-Keeps : (fd : ℕ) → Keeps IsConsistent (set_fd {K = K} fd)
  set_fd-Keeps fd = Keeps-modify _ (λ w c. IsConsistent-same w _ refl refl refl refl c.unique c)

  count_overflow-Keeps : Keeps IsConsistent (count_overflow {K = K})
  count_overflow-Keeps =
      Keeps-modify _ (λ w c. IsConsistent-same w _ refl refl refl refl c.unique c)

module _ (k : Kernel) where
  open k use {State}

  rebuild-Keeps : Keeps IsConsistent (rebuild k)
  unfolding rebuild
  rebuild-Keeps = search (keeps_rules, set_fd-Keeps, reinitialize-Keeps)

  pub start_over-Keeps : Keeps IsConsistent (start_over k)
  unfolding start_over
  start_over-Keeps = search (keeps_rules, rebuild-Keeps)

  go_on_or_start_over-Keeps :
      (len : ℕ) (cnt : Option ℕ) → Keeps IsConsistent (go_on_or_start_over k len cnt)
  unfolding go_on_or_start_over
  go_on_or_start_over-Keeps len none = start_over-Keeps
  go_on_or_start_over-Keeps len (some n) = Keeps-pure (go_on len)

  zap_or_start_over-Fine :
      (p : FilePath) (len : ℕ) (w : Watcher State)
      → IsConsistent w
      → Fine (zap_or_start_over k p len w)
  unfolding zap_or_start_over
  zap_or_start_over-Fine p len w h =
      (Keeps-bind (zap_subtree k w.inotify_fd p) (go_on_or_start_over k len)
          (zap_subtree-Keeps k w.inotify_fd p) (go_on_or_start_over-Keeps len)).at
        w h

  pub on_overflow-Keeps : Keeps IsConsistent (on_overflow k)
  unfolding on_overflow
  on_overflow-Keeps = search (keeps_rules, count_overflow-Keeps, rebuild-Keeps)

  module _ (slot : Option ℕ) (w : Watcher State) (h : IsConsistent w)
      (there : HasSlot slot w.cache) where
    on_create-Fine : (ev : Event) → Fine (on_create k slot ev w)
    unfolding on_create
    on_create-Fine ev =
        Returns-bind _ _ (entry_at slot w) _ (entry_at-Returns slot w there) (λ e v same. rw same (
          Returns-if _ (pathname_in_cache w.cache (join_path (path_max + name_max) e.path ev.name))
            _ _ (λ _. h) (λ _. (watch_subtree-Keeps k _ _).at w h)))

    on_delete_self-Fine : Fine (on_delete_self k slot w)
    unfolding on_delete_self
    on_delete_self-Fine =
        Returns-bind _ _ (entry_at slot w) _ (entry_at-Returns slot w there) (λ e v same. rw same (
          Returns-if _ (is_root_dir_path w.root_dir_paths e.path) _ _
            (λ _.
              Returns-bind _ _ (zap_root_dir_path e.path w) _
                ((zap_root_dir_path-Keeps e.path w.cache).at w (h, refl))
                (λ _ u q. mark_slot-Returns slot u q.0 (rw q.1 there)))
            (λ _. mark_slot-Returns slot w h there)))

    rename_to-Fine :
        (ev nx : Event) (target : Option ℕ)
        → (target ≡ none) ⊎ HasSlot target w.cache
        → Fine (rename_to k slot ev nx target w)
    unfolding rename_to
    rename_to-Fine ev nx none t = start_over-Keeps.at w h
    rename_to-Fine ev nx (some j) (inl e) = absurd (grind arith)
    rename_to-Fine ev nx (some j) (inr t) =
        Returns-bind _ _ (entry_at slot w) _ (entry_at-Returns slot w there) (λ e v same. rw same (
          Returns-bind _ _ (entry_at (some j) w) _ (entry_at-Returns (some j) w t) (λ e' u same'.
            rw same' (
              IsConsistent-same w _ refl refl refl refl
                (rewrite_cached_paths-IsUnique w.cache e.path ev.name e'.path nx.name h.unique)
                h))))

    on_rename-Fine : (ev nx : Event) → Fine (on_rename k slot ev nx w)
    unfolding on_rename
    on_rename-Fine ev nx =
        Returns-bind _ _ (find_watch_checked nx.wd w) _ (find_watch_checked-Returns nx.wd w h)
          (λ target v q. rw q.0 (rename_to-Fine ev nx target q.1))

    on_moved_out-Fine : (ev : Event) → Fine (on_moved_out k slot ev w)
    unfolding on_moved_out
    on_moved_out-Fine ev =
        Returns-bind _ _ (entry_at slot w) _ (entry_at-Returns slot w there)
          (λ e v same. rw same (zap_or_start_over-Fine _ _ w h))

    moved_before-Fine :
        (ev : Event) (size : ℕ) (first : Bool) (next : Option Event)
        → Fine (moved_before k slot ev size first next w)
    unfolding moved_before
    moved_before-Fine ev size first (some nx) =
        Returns-if _ (is_pair ev nx) _ _ (λ _. on_rename-Fine ev nx) (λ _. on_moved_out-Fine ev)
    moved_before-Fine ev size first none =
        Returns-if _ (ltb (ev_len ev) size || not first) _ _ (λ _. on_moved_out-Fine ev) (λ _. h)

    on_move_self-Fine : (ev : Event) → Fine (on_move_self k slot ev w)
    unfolding on_move_self
    on_move_self-Fine ev =
        Returns-bind _ _ (entry_at slot w) _ (entry_at-Returns slot w there) (λ e v same. rw same (
          Returns-if _ (is_root_dir_path w.root_dir_paths e.path) _ _
            (λ _.
              Returns-bind _ _ (zap_root_dir_path e.path w) _
                ((zap_root_dir_path-Keeps e.path w.cache).at w (h, refl))
                (λ _ u q. zap_or_start_over-Fine e.path _ u q.0))
            (λ _. h)))

    -- Every branch, with the slot of the event's watch at hand
    pub dispatch-Fine :
        (ev : Event) (rest : List Event) (size : ℕ) (first : Bool)
        → Fine (dispatch k slot ev rest size first w)
    unfolding dispatch on_moved_from
    dispatch-Fine ev rest size first =
        let m = ev.mask in
        Returns-if _ (m.isdir && (m.create || m.moved_to)) _ _
          (λ _. Returns-bind _ _ (on_create k slot ev w) _ (on_create-Fine ev) (λ _ v q. q))
          λ _.
            Returns-if _ m.delete_self _ _
              (λ _. Returns-bind _ _ (on_delete_self k slot w) _ on_delete_self-Fine (λ _ v q. q))
              λ _.
                Returns-if _ (m.moved_from && m.isdir) _ _
                  (λ _. moved_before-Fine ev size first (next_event (ev_len ev) size rest))
                  λ _.
                    Returns-if _ m.q_overflow _ _ (λ _. on_overflow-Keeps.at w h)
                      λ _.
                        Returns-if _ m.unmount _ _
                          (λ _.
                            Returns-bind _ _ (mark_slot slot w) _ (mark_slot-Returns slot w h there)
                              (λ _ v q. q))
                          λ _. Returns-if _ m.move_self _ _ (λ _. on_move_self-Fine ev) (λ _. h)
