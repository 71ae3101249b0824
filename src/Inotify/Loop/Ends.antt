-- ===== src/Inotify/Loop/Ends.antt =====
-- The loop of `processInotifyEvents` of inotify/inotify_dtree.c ends, and keeps the invariant.
use mathlib.Core.Path.{subst}
use mathlib.Core.Bool.{false≢true}
use the_linux_programming_in.Prelude.{
  ℕ, zero, suc, ◌+◌, ◌-◌, ◌*◌, ◌≤◌, ◌<◌, ◌≡◌, ◌≢◌, refl, sym, ap, ◌∙◌, Bool, true, Option, none,
  some, List, [], ◌∷◌, ◌++◌, arith, inl, inr, ltb, length, ltb→lt, ltb→le,
}
use the_linux_programming_in.Syscall.{ReadResult, got, eof, eintr, read_error}
use the_linux_programming_in.Inotify.Watcher.{Kernel, Watcher, Outcome, M}
use the_linux_programming_in.Inotify.Watcher.Rules.{
  Returns, Returns-bind, Returns-mono, Returns-if, Returns-Yields,
}
use the_linux_programming_in.Inotify.Events.{
  Event, ev_len, inotify_read_buf_len, process_next_inotify_event,
}
use the_linux_programming_in.Inotify.Invariant.{IsConsistent}
use the_linux_programming_in.Inotify.Invariant.Trees.{IsConsistent-same}
use the_linux_programming_in.Inotify.Invariant.Process.{process_next_inotify_event-IsConsistent}
use the_linux_programming_in.Inotify.Loop.{
  bytes, advance, Progress, stuck, Buffer, consumed, read_more, next_buffer, loop_body, on_buffer,
  events_loop, read_result, Read, read_count, process_read, loop_fuel, process_inotify_events,
}
use the_linux_programming_in.Inotify.Loop.Layout.{
  AllWellFormed, IsFineRead, AllFine, work, Lies, IsBuffer, length-le-bytes, AllWellFormed-append,
  AllWellFormed-advance, bytes-append, bytes-advance, advance-less, Lies-consumed,
}
use the_linux_programming_in.Inotify.Loop.Consumption.{
  Consumes, nothing, one, both, everything, process_next_inotify_event-Consumes,
}

-- The result is -1 at a first try for the last event, or a number of bytes that is not 0.
abbrev Moves : ℕ → ℕ → Bool → Option ℕ → Type 0
Moves len left first none = (first ≡ true) × (left ≤ len)
Moves len left first (some n) = 0 < n

Consumes-Moves :
    {ev : Event} {rest : List Event} {left : ℕ} {first : Bool} {r : Option ℕ}
    → Consumes ev rest left first r
    → Moves (ev_len ev) left first r
Consumes-Moves (nothing f e t m) = (f, ltb→le _ _ t)
Consumes-Moves one = omega arith
Consumes-Moves (both nx e p) = omega arith
Consumes-Moves everything = omega arith

-- A round leaves a buffer with less to do.
abbrev Goes : {K : Type 0} → ℕ → Option Buffer → Watcher K → Type 0
Goes n none w = IsConsistent w
Goes n (some b) w = IsConsistent w × IsBuffer b × (work b < n)

-- The buffer holds one event, at its first try.
record Hangs (b : Buffer) : Type 0 where
  fine : IsBuffer b
  single : length b.events ≡ 1
  whole : b.left ≡ bytes b.events

Goes-mono :
    {K : Type 0} (n m : ℕ) (o : Option Buffer) (w : Watcher K) → n ≤ m → Goes n o w → Goes m o w
Goes-mono n m none w l g = g
Goes-mono n m (some b) w l g = (g.0, g.1, omega (arith, g.2))

module _ {K : Type 0} where
  count_read-IsConsistent :
      (w : Watcher K)
      → IsConsistent w
      → IsConsistent (record w { inotify_read_cnt = w.inotify_read_cnt + 1 })
  count_read-IsConsistent w h = IsConsistent-same w _ refl refl refl refl h.unique h

  read_result-Goes :
      (b : Buffer) (r : Read) (w : Watcher K) (o : ReadResult (List Event))
      → IsFineRead r
      → r (inotify_read_buf_len - b.left) ≡ o
      → IsConsistent w
      → Hangs b
      → Returns (Goes (3402 * (length b.reads + 1) + 2)) (read_result b o w)
  unfolding read_result
  read_result-Goes b r w (got es) f e h i =
      let fits = f.fits _ es e in
      (
        count_read-IsConsistent w h,
        record {
          events_fine = AllWellFormed-append b.events es i.fine.events_fine (f.fine _ es e);
          reads_fine = i.fine.reads_fine;
          lies = inl (omega (arith, i.whole, bytes-append b.events es));
          room = omega (arith, i.whole, fits, bytes-append b.events es, i.fine.room);
        },
        omega (
          arith,
          i.whole,
          fits,
          bytes-append b.events es,
          i.fine.room,
          length-le-bytes (b.events ++ es),
        ),
      )
  read_result-Goes b r w eintr f e h i = (
    count_read-IsConsistent w h,
    record {
      events_fine = i.fine.events_fine;
      reads_fine = i.fine.reads_fine;
      lies = inr (inr (i.single, omega (arith, i.whole, length-le-bytes b.events, i.single), refl));
      room = i.fine.room;
    },
    omega (arith, i.single),
  )
  read_result-Goes b r w eof f e h i = tt
  read_result-Goes b r w read_error f e h i = tt

  read_more-Goes :
      (b : Buffer) (rs : List Read) (w : Watcher K)
      → b.reads ≡ rs
      → AllFine rs
      → b.first_try ≡ true
      → IsConsistent w
      → Hangs b
      → Returns (Goes (work b)) (read_more b rs w)
  unfolding read_more
  read_more-Goes b [] w e f t h i = h
  read_more-Goes b (r ∷ rs) w e f t h i =
      Returns-mono (Goes (3402 * (length rs + 1) + 2)) (Goes (work b))
        (read_result (record b { reads = rs }) (r (inotify_read_buf_len - b.left)) w)
        (read_result-Goes (record b { reads = rs }) r w _ f.0 refl h
          (record {
            fine = record {
              events_fine = i.fine.events_fine;
              reads_fine = f.1;
              lies = i.fine.lies;
              room = i.fine.room;
            };
            single = i.single;
            whole = i.whole;
          }))
        (λ o v g.
          Goes-mono _ _ o v (ground (arith, ap (λ (x : List Read). length x) e, i.single)) g)

hangs :
    (ev : Event) (rest : List Event) (left : ℕ) (first : Bool)
    → Lies (ev ∷ rest) left first
    → 0 < left
    → Moves (ev_len ev) left first none
    → (length (ev ∷ rest) ≡ 1) × (left ≡ bytes (ev ∷ rest))
hangs ev rest left first (inl e) p m = (omega (arith, m.1, length-le-bytes rest), e)
hangs ev rest left first (inr (inl z)) p m = absurd (omega arith)
hangs ev rest left first (inr (inr (l, q, f))) p m = absurd (false≢true (sym f ∙ m.0))

empty : (left : ℕ) (first : Bool) → Lies [] left first → 0 < left → ⊥
empty left first (inl e) p = omega arith
empty left first (inr (inl z)) p = omega arith
empty left first (inr (inr (l, q, f))) p = omega arith

module _ (k : Kernel) where
  open k use {State}

  next_buffer-Goes :
      (b : Buffer) (ev : Event) (rest : List Event) (r : Option ℕ) (w : Watcher State)
      → b.events ≡ ev ∷ rest
      → IsBuffer b
      → 0 < b.left
      → IsConsistent w
      → Consumes ev rest b.left b.first_try r
      → Returns (Goes (work b)) (next_buffer k b r w)
  unfolding next_buffer
  next_buffer-Goes b ev rest none w e i p h c =
      let lies = subst (λ es. Lies es b.left b.first_try) e i.lies in
      let moves = Consumes-Moves c in
      let (single, whole) = hangs ev rest b.left b.first_try lies p moves in
      read_more-Goes b b.reads w refl i.reads_fine moves.0 h (record {
        fine = i;
        single = ap (λ (es : List Event). length es) e ∙ single;
        whole = whole ∙ sym (ap bytes e);
      })
  next_buffer-Goes b ev rest (some n) w e i p h c =
      let lies = subst (λ es. Lies es b.left b.first_try) e i.lies in
      let room = subst (λ es. bytes es ≤ inotify_read_buf_len) e i.room in
      (
        h,
        record {
          events_fine = AllWellFormed-advance n b.events i.events_fine;
          reads_fine = i.reads_fine;
          lies =
              subst (λ es. Lies (advance n es) (b.left - n) true) (sym e)
                (Lies-consumed ev rest b.left n b.first_try lies p room c);
          room = omega (arith, bytes-advance n b.events, i.room);
        },
        less e (Consumes-Moves c),
      )
    where
      less : b.events ≡ ev ∷ rest → 0 < n → work (consumed n b) < work b
      less e q = ground (
        arith,
        ap (λ (es : List Event). length (advance n es)) e,
        ap (λ (es : List Event). length es) e,
        advance-less n ev rest q,
      )

  loop_body-Goes :
      (b : Buffer) (es : List Event) (w : Watcher State)
      → b.events ≡ es
      → IsBuffer b
      → 0 < b.left
      → IsConsistent w
      → Returns (Goes (work b)) (loop_body k b es w)
  unfolding loop_body
  loop_body-Goes b [] w e i p h =
      absurd (empty b.left b.first_try (subst (λ es. Lies es b.left b.first_try) e i.lies) p)
  loop_body-Goes b (ev ∷ rest) w e i p h =
      Returns-bind _ _ (process_next_inotify_event k ev rest b.left b.first_try w) _
        (Returns-Yields _ _ _
          (process_next_inotify_event-IsConsistent k ev rest b.left b.first_try w
            (subst AllWellFormed e i.events_fine).0 h)
          (process_next_inotify_event-Consumes k ev rest b.left b.first_try w))
        (λ r v q. next_buffer-Goes b ev rest r v e i p q.0 q.1)

  -- The loop comes to its end, or waits for a read().
  abbrev pub Ends : Outcome State Progress → Type 0
  Ends o = Returns (λ p v. (p ≢ stuck) × IsConsistent v) o

  on_buffer-Ends :
      (loop : Buffer → M State Progress) (n : ℕ)
      → ((b : Buffer) (v : Watcher State)
          → work b < n
          → IsBuffer b
          → IsConsistent v
          → Ends (loop b v))
      → (o : Option Buffer) (v : Watcher State) → Goes n o v
      → Ends (on_buffer k loop o v)
  on_buffer-Ends loop n rec none v g = ((λ e. grind arith), g)
  on_buffer-Ends loop n rec (some b) v g = rec b v g.2 g.1 g.0

  -- With more fuel than work the loop does not run out of it.
  events_loop-Ends :
      (fuel : ℕ) (b : Buffer) (w : Watcher State)
      → work b < fuel
      → IsBuffer b
      → IsConsistent w
      → Ends (events_loop k fuel b w)
  unfolding events_loop
  events_loop-Ends zero b w l i h = absurd (omega arith)
  events_loop-Ends (suc fuel) b w l i h =
      Returns-if _ (ltb 0 b.left) _ _
        (λ t.
          Returns-bind _ _ (loop_body k b b.events w) _
            (loop_body-Goes b b.events w refl i (ltb→lt _ _ t) h)
            (on_buffer-Ends (events_loop k fuel) (work b)
              (λ b' v l' i' h'. events_loop-Ends fuel b' v (omega arith) i' h')))
        (λ _. ((λ e. grind arith), h))

  process_read-Ends :
      (o : ReadResult (List Event)) (rs : List Read) (w : Watcher State)
      → ((es : List Event) → o ≡ got es → AllWellFormed es × (bytes es ≤ inotify_read_buf_len))
      → AllFine rs
      → IsConsistent w
      → Ends (process_read k o rs w)
  unfolding process_read
  process_read-Ends (got es) rs w f fs h =
      let (fine, fits) = f es refl in
      Returns-if _ (ltb inotify_read_buf_len (bytes es)) _ _
        (λ t. absurd (omega (arith, ltb→lt _ _ t)))
        (λ _.
          events_loop-Ends (loop_fuel rs) _ _ (omega (arith, length-le-bytes es))
            (record { events_fine = fine; reads_fine = fs; lies = inl refl; room = fits })
            (count_read-IsConsistent w h))
  process_read-Ends eof rs w f fs h = tt
  process_read-Ends eintr rs w f fs h = tt
  process_read-Ends read_error rs w f fs h = tt

  pub process_inotify_events-Ends :
      (read : Read) (rs : List Read) (w : Watcher State)
      → IsFineRead read
      → AllFine rs
      → IsConsistent w
      → Ends (process_inotify_events k read rs w)
  unfolding process_inotify_events
  process_inotify_events-Ends read rs w f fs h =
      process_read-Ends (read (read_count k w)) rs w
        (λ es e. (f.fine _ es e, let fits = f.fits _ es e in ground (arith, h.sized))) fs h
