-- ===== src/Inotify/Invariant/Process.antt =====
-- `processNextInotifyEvent` of inotify/inotify_dtree.c as a whole, on the invariant.
use the_linux_programming_in.Prelude.{
  ℕ, ◌≡◌, Bool, false, not, ◌&&◌, ◌||◌, Option, none, some, List, arith, ◌⊎◌, inl, inr,
}
use the_linux_programming_in.Inotify.Cache.{is_live}
use the_linux_programming_in.Inotify.Watcher.{Kernel, Watcher}
use the_linux_programming_in.Inotify.Watcher.Rules.{
  Returns, Returns-bind, Returns-if, Keeps, Keeps-bind, Keeps-pure, keeps_rules,
}
use the_linux_programming_in.Inotify.Tree.{find_watch_checked}
use the_linux_programming_in.Inotify.Events.{
  Event, Branch, leave, go_on, dispatch, check_if_asked, dump_if_asked, finish, process_checked,
  process_next_inotify_event, start_over,
}
use the_linux_programming_in.Inotify.Invariant.{IsConsistent}
use the_linux_programming_in.Inotify.Invariant.Slots.{
  HasSlot, check_cache_consistency-Keeps, find_watch_checked-Returns,
}
use the_linux_programming_in.Inotify.Invariant.Handlers.{
  Fine, start_over-Keeps, on_overflow-Keeps, dispatch-Fine,
}

-- inotify(7): an event that names no watch is IN_Q_OVERFLOW, and IN_IGNORED comes alone.
pub record IsWellFormed (ev : Event) : Type 0 where
  pub create : (is_live ev.wd && not ev.mask.ignored) ≡ false → ev.mask.create ≡ false
  pub moved_to : (is_live ev.wd && not ev.mask.ignored) ≡ false → ev.mask.moved_to ≡ false
  pub delete_self : (is_live ev.wd && not ev.mask.ignored) ≡ false → ev.mask.delete_self ≡ false
  pub moved_from : (is_live ev.wd && not ev.mask.ignored) ≡ false → ev.mask.moved_from ≡ false
  pub unmount : (is_live ev.wd && not ev.mask.ignored) ≡ false → ev.mask.unmount ≡ false
  pub move_self : (is_live ev.wd && not ev.mask.ignored) ≡ false → ev.mask.move_self ≡ false

module _ (k : Kernel) where
  open k use {State}

  check_if_asked-Keeps : Keeps IsConsistent (check_if_asked k)
  check_if_asked-Keeps = record {
    at = λ w h.
        Returns-if _ w.check_cache _ _ (λ _. (check_cache_consistency-Keeps k).at w h) (λ _. h);
  }

  dump_if_asked-Keeps : Keeps IsConsistent (dump_if_asked k)
  dump_if_asked-Keeps = record {
    at = λ w h. Returns-if _ w.dump_cache _ _ (λ d. absurd (ground (arith, d, h.quiet))) (λ _. h);
  }

  pub finish-Keeps : (b : Branch) → Keeps IsConsistent (finish k b)
  unfolding finish
  finish-Keeps (leave r) = Keeps-pure r
  finish-Keeps (go_on len) = search (keeps_rules, check_if_asked-Keeps, dump_if_asked-Keeps)

  -- With no slot at hand, a well-formed event takes a branch that needs none.
  dispatch-Fine-none :
      (ev : Event) (rest : List Event) (size : ℕ) (first : Bool) (w : Watcher State)
      → IsWellFormed ev
      → (is_live ev.wd && not ev.mask.ignored) ≡ false
      → IsConsistent w
      → Fine (dispatch k none ev rest size first w)
  unfolding dispatch
  dispatch-Fine-none ev rest size first w f lone h =
      let m = ev.mask in
      Returns-if _ (m.isdir && (m.create || m.moved_to)) _ _
        (λ t. absurd (ground (arith, f.create lone, f.moved_to lone)))
        λ _.
          Returns-if _ m.delete_self _ _ (λ t. absurd (ground (arith, f.delete_self lone)))
            λ _.
              Returns-if _ (m.moved_from && m.isdir) _ _
                (λ t. absurd (ground (arith, f.moved_from lone)))
                λ _.
                  Returns-if _ m.q_overflow _ _ (λ _. (on_overflow-Keeps k).at w h)
                    λ _.
                      Returns-if _ m.unmount _ _ (λ t. absurd (ground (arith, f.unmount lone)))
                        λ _.
                          Returns-if _ m.move_self _ _
                            (λ t. absurd (ground (arith, f.move_self lone))) (λ _. h)

  process_checked-Fine :
      (ev : Event) (rest : List Event) (size : ℕ) (first : Bool) (slot : Option ℕ)
      (w : Watcher State)
      → IsConsistent w
      → (slot ≡ none) ⊎ HasSlot slot w.cache
      → Fine (process_checked k ev rest size first slot w)
  unfolding process_checked
  process_checked-Fine ev rest size first none w h t =
      (Keeps-bind (start_over k) (finish k) (start_over-Keeps k) finish-Keeps).at w h
  process_checked-Fine ev rest size first (some j) w h (inl e) = absurd (grind arith)
  process_checked-Fine ev rest size first (some j) w h (inr t) =
      Returns-bind _ _ (dispatch k (some j) ev rest size first w) (finish k)
        (dispatch-Fine k (some j) w h t ev rest size first) (λ b v q. (finish-Keeps b).at v q)

  -- For a well-formed event and a state with the invariant, `processNextInotifyEvent` reads no slot
  -- that was not set or lies outside the array, and keeps the invariant or exits.
  pub process_next_inotify_event-IsConsistent :
      (ev : Event) (rest : List Event) (size : ℕ) (first : Bool) (w : Watcher State)
      → IsWellFormed ev
      → IsConsistent w
      → Returns (λ _ v. IsConsistent v) (process_next_inotify_event k ev rest size first w)
  unfolding process_next_inotify_event
  process_next_inotify_event-IsConsistent ev rest size first w f h =
      Returns-if _ (is_live ev.wd && not ev.mask.ignored) _ _
        (λ _.
          Returns-bind _ _ (find_watch_checked ev.wd w) (process_checked k ev rest size first)
            (find_watch_checked-Returns ev.wd w h)
            (λ slot v q. rw q.0 (process_checked-Fine ev rest size first slot w h q.1)))
        (λ lone.
          Returns-bind _ _ (dispatch k none ev rest size first w) (finish k)
            (dispatch-Fine-none ev rest size first w f lone h) (λ b v q. (finish-Keeps b).at v q))
