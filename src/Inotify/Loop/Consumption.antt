-- ===== src/Inotify/Loop/Consumption.antt =====
-- How much of the buffer `processNextInotifyEvent` of inotify/inotify_dtree.c consumes.
use the_linux_programming_in.Prelude.{
  ℕ, ◌+◌, ◌≡◌, refl, Bool, true, false, not, ◌&&◌, ◌||◌, Option, none, some, List, arith, ltb,
}
use the_linux_programming_in.Inotify.Cache.{FilePath, is_live}
use the_linux_programming_in.Inotify.Roots.{is_root_dir_path, zap_root_dir_path}
use the_linux_programming_in.Inotify.Watcher.{Kernel, Watcher, ◌>>◌}
use the_linux_programming_in.Inotify.Watcher.Rules.{
  Yields, Yields-bind, Yields-bind_post, Yields-if,
}
use the_linux_programming_in.Inotify.Tree.{find_watch_checked, zap_subtree}
use the_linux_programming_in.Inotify.Events.{
  Event, Branch, leave, go_on, ev_len, inotify_read_buf_len, is_pair, next_event, entry_at,
  mark_slot, rebuild, start_over, on_create, on_delete_self, go_on_or_start_over, zap_or_start_over,
  rename_to, on_rename, on_moved_out, moved_before, on_moved_from, on_overflow, on_move_self,
  dispatch, check_if_asked, dump_if_asked, finish, process_checked, process_next_inotify_event,
}

abbrev pub result_of : Branch → Option ℕ
result_of (leave r) = r
result_of (go_on n) = some n

-- Nothing, at the first try for an event at the end of the data; the event; the event and its pair; or
-- the whole buffer.
pub data Consumes (ev : Event) (rest : List Event) (size : ℕ) (first : Bool)
    : Option ℕ → Type 0 where
  nothing :
      first ≡ true
      → next_event (ev_len ev) size rest ≡ none
      → ltb (ev_len ev) size ≡ false
      → (ev.mask.moved_from && ev.mask.isdir) ≡ true
      → Consumes ev rest size first none
  one : Consumes ev rest size first (some (ev_len ev))
  both :
      (nx : Event)
      → next_event (ev_len ev) size rest ≡ some nx
      → is_pair ev nx ≡ true
      → Consumes ev rest size first (some (ev_len ev + ev_len nx))
  everything : Consumes ev rest size first (some inotify_read_buf_len)

module _ (k : Kernel) (ev : Event) (rest : List Event) (size : ℕ) (first : Bool) where
  open k use {State}

  abbrev Done : Branch → Type 0
  Done b = Consumes ev rest size first (result_of b)

  start_over-Done : (w : Watcher State) → Yields Done (start_over k w)
  unfolding start_over
  start_over-Done w = Yields-bind Done (rebuild k w) _ (λ _ v. everything)

  go_on_or_start_over-Done :
      (cnt : Option ℕ) (w : Watcher State) → Yields Done (go_on_or_start_over k (ev_len ev) cnt w)
  unfolding go_on_or_start_over
  go_on_or_start_over-Done none w = start_over-Done w
  go_on_or_start_over-Done (some n) w = one

  zap_or_start_over-Done :
      (p : FilePath) (w : Watcher State) → Yields Done (zap_or_start_over k p (ev_len ev) w)
  unfolding zap_or_start_over
  zap_or_start_over-Done p w =
      Yields-bind Done (zap_subtree k w.inotify_fd p w) _ go_on_or_start_over-Done

  module _ (slot : Option ℕ) where
    on_moved_out-Done : (w : Watcher State) → Yields Done (on_moved_out k slot ev w)
    unfolding on_moved_out
    on_moved_out-Done w = Yields-bind Done (entry_at slot w) _ (λ e v. zap_or_start_over-Done _ v)

    module _ (nx : Event) (next : next_event (ev_len ev) size rest ≡ some nx)
        (pair : is_pair ev nx ≡ true) where
      rename_to-Done :
          (target : Option ℕ) (w : Watcher State) → Yields Done (rename_to k slot ev nx target w)
      unfolding rename_to
      rename_to-Done none w = start_over-Done w
      rename_to-Done (some j) w =
          Yields-bind Done (entry_at slot w) _
            (λ e v. Yields-bind Done (entry_at (some j) v) _ (λ e' u. both nx next pair))

      on_rename-Done : (w : Watcher State) → Yields Done (on_rename k slot ev nx w)
      unfolding on_rename
      on_rename-Done w = Yields-bind Done (find_watch_checked nx.wd w) _ rename_to-Done

    moved_before-Done :
        (next : Option Event) (w : Watcher State)
        → (ev.mask.moved_from && ev.mask.isdir) ≡ true
        → next_event (ev_len ev) size rest ≡ next
        → Yields Done (moved_before k slot ev size first next w)
    unfolding moved_before
    moved_before-Done (some nx) w m e =
        Yields-if Done (is_pair ev nx) _ _ (λ p. on_rename-Done nx e p w) (λ _. on_moved_out-Done w)
    moved_before-Done none w m e =
        Yields-if Done (ltb (ev_len ev) size || not first) _ _ (λ _. on_moved_out-Done w)
          (λ f. nothing (ground arith) e (ground arith) m)

    on_move_self-Done : (w : Watcher State) → Yields Done (on_move_self k slot ev w)
    unfolding on_move_self
    on_move_self-Done w = Yields-bind Done (entry_at slot w) _ (λ e v.
        Yields-if Done (is_root_dir_path v.root_dir_paths e.path) _ _
          (λ _.
            Yields-bind Done (zap_root_dir_path e.path v) _
              (λ _ u. zap_or_start_over-Done e.path u))
          (λ _. one))

    dispatch-Done : (w : Watcher State) → Yields Done (dispatch k slot ev rest size first w)
    unfolding dispatch on_moved_from on_overflow
    dispatch-Done w =
        let m = ev.mask in
        Yields-if Done (m.isdir && (m.create || m.moved_to)) _ _
          (λ _. Yields-bind Done (on_create k slot ev w) _ (λ _ v. one))
          λ _.
            Yields-if Done m.delete_self _ _
              (λ _. Yields-bind Done (on_delete_self k slot w) _ (λ _ v. one))
              λ _.
                Yields-if Done (m.moved_from && m.isdir) _ _
                  (λ t. moved_before-Done (next_event (ev_len ev) size rest) w t refl)
                  λ _.
                    Yields-if Done m.q_overflow _ _
                      (λ _. Yields-bind Done (rebuild k _) _ (λ _ v. everything))
                      λ _.
                        Yields-if Done m.unmount _ _
                          (λ _. Yields-bind Done (mark_slot slot w) _ (λ _ v. one))
                          λ _. Yields-if Done m.move_self _ _ (λ _. on_move_self-Done w) (λ _. one)

  finish-Done :
      (b : Branch) (w : Watcher State)
      → Done b
      → Yields (Consumes ev rest size first) (finish k b w)
  unfolding finish
  finish-Done (leave r) w d = d
  finish-Done (go_on n) w d = Yields-bind _ ((check_if_asked k >> dump_if_asked k) w) _ (λ _ u. d)

  process_checked-Done :
      (slot : Option ℕ) (w : Watcher State)
      → Yields (Consumes ev rest size first) (process_checked k ev rest size first slot w)
  unfolding process_checked
  process_checked-Done none w =
      Yields-bind_post Done _ (start_over k w) _ (start_over-Done w) finish-Done
  process_checked-Done (some j) w =
      Yields-bind_post Done _ (dispatch k (some j) ev rest size first w) _
        (dispatch-Done (some j) w) finish-Done

  pub process_next_inotify_event-Consumes :
      (w : Watcher State)
      → Yields (Consumes ev rest size first) (process_next_inotify_event k ev rest size first w)
  unfolding process_next_inotify_event
  process_next_inotify_event-Consumes w =
      Yields-if _ (is_live ev.wd && not ev.mask.ignored) _ _
        (λ _. Yields-bind _ (find_watch_checked ev.wd w) _ process_checked-Done)
        (λ _.
          Yields-bind_post Done _ (dispatch k none ev rest size first w) _ (dispatch-Done none w)
            finish-Done)
