-- ===== src/Inotify/Loop/Layout.antt =====
-- How the data of a read() lies in the buffer of `processInotifyEvents` in inotify/inotify_dtree.c, while
-- its events are consumed.
use the_linux_programming_in.Prelude.{
  ℕ, zero, suc, ◌+◌, ◌-◌, ◌*◌, ◌≤◌, ◌<◌, ◌≡◌, refl, ap, ◌∙◌, Bool, true, false, some, List, [], ◌∷◌,
  ◌++◌, arith, ◌⊎◌, inl, inr, if◌then◌else◌, length,
}
use the_linux_programming_in.Syscall.{got}
use the_linux_programming_in.Inotify.Events.{Event, ev_len, next_event, inotify_read_buf_len}
use the_linux_programming_in.Inotify.Invariant.Process.{IsWellFormed}
use the_linux_programming_in.Inotify.Loop.{bytes, advance, Buffer, Read}
use the_linux_programming_in.Inotify.Loop.Consumption.{Consumes, one, both, everything}

abbrev pub AllWellFormed : List Event → Type 0
AllWellFormed [] = Unit
AllWellFormed (e ∷ es) = IsWellFormed e × AllWellFormed es

-- read(2): at most as many bytes as asked for
pub record IsFineRead (r : Read) : Type 0 where
  pub fits : (n : ℕ) (es : List Event) → r n ≡ got es → bytes es ≤ n
  pub fine : (n : ℕ) (es : List Event) → r n ≡ got es → AllWellFormed es

abbrev pub AllFine : List Read → Type 0
AllFine [] = Unit
AllFine (r ∷ rs) = IsFineRead r × AllFine rs

-- What is left to do: each event takes two rounds at most, a buffer holds 1700 events at most.
abbrev pub work : Buffer → ℕ
work b = 3402 * length b.reads + 2 * length b.events + (if b.first_try then 1 else 0)

-- How the data lies in the buffer: up to its last byte; used up; or a single event less one byte, after
-- an interrupted read.
abbrev pub Lies : List Event → ℕ → Bool → Type 0
Lies es left first =
    (left ≡ bytes es) ⊎ ((left ≡ 0) ⊎ ((length es ≡ 1) × (left + 1 ≡ bytes es) × (first ≡ false)))

pub record IsBuffer (b : Buffer) : Type 0 where
  pub events_fine : AllWellFormed b.events
  pub reads_fine : AllFine b.reads
  pub lies : Lies b.events b.left b.first_try
  pub room : bytes b.events ≤ inotify_read_buf_len

pub length-le-bytes : (es : List Event) → 16 * length es ≤ bytes es
length-le-bytes [] = omega arith
length-le-bytes (e ∷ es) = omega (arith, length-le-bytes es)

advance-zero : (es : List Event) → advance 0 es ≡ es
unfolding advance
advance-zero [] = refl
advance-zero (e ∷ es) = refl

advance-pos :
    (n : ℕ) (e : Event) (es : List Event) → 0 < n → advance n (e ∷ es) ≡ advance (n - ev_len e) es
unfolding advance
advance-pos zero e es h = absurd (omega arith)
advance-pos (suc n) e es h = refl

advance_one : (e : Event) (es : List Event) → advance (ev_len e) (e ∷ es) ≡ es
advance_one e es =
    advance-pos (ev_len e) e es (omega arith)
    ∙ ap (λ n. advance n es) (omega arith)
    ∙ advance-zero es

advance_two : (e f : Event) (es : List Event) → advance (ev_len e + ev_len f) (e ∷ f ∷ es) ≡ es
advance_two e f es =
    advance-pos (ev_len e + ev_len f) e (f ∷ es) (omega arith)
    ∙ ap (λ n. advance n (f ∷ es)) (omega arith)
    ∙ advance_one f es

length-advance : (n : ℕ) (es : List Event) → length (advance n es) ≤ length es
unfolding advance
length-advance n [] = omega arith
length-advance zero (e ∷ es) = omega arith
length-advance (suc n) (e ∷ es) = omega (arith, length-advance (suc n - ev_len e) es)

pub bytes-advance : (n : ℕ) (es : List Event) → bytes (advance n es) ≤ bytes es
unfolding advance
bytes-advance n [] = omega arith
bytes-advance zero (e ∷ es) = omega arith
bytes-advance (suc n) (e ∷ es) = omega (arith, bytes-advance (suc n - ev_len e) es)

pub AllWellFormed-advance :
    (n : ℕ) (es : List Event) → AllWellFormed es → AllWellFormed (advance n es)
unfolding advance
AllWellFormed-advance n [] h = h
AllWellFormed-advance zero (e ∷ es) h = h
AllWellFormed-advance (suc n) (e ∷ es) h = AllWellFormed-advance (suc n - ev_len e) es h.1

pub AllWellFormed-append :
    (es fs : List Event) → AllWellFormed es → AllWellFormed fs → AllWellFormed (es ++ fs)
AllWellFormed-append [] fs h k = k
AllWellFormed-append (e ∷ es) fs h k = (h.0, AllWellFormed-append es fs h.1 k)

pub bytes-append : (es fs : List Event) → bytes (es ++ fs) ≡ bytes es + bytes fs
bytes-append [] fs = omega arith
bytes-append (e ∷ es) fs = omega (arith, bytes-append es fs)

pub advance-less :
    (n : ℕ) (e : Event) (es : List Event) → 0 < n → length (advance n (e ∷ es)) < length (e ∷ es)
unfolding advance
advance-less zero e es h = absurd (omega arith)
advance-less (suc n) e es h = omega (arith, length-advance (suc n - ev_len e) es)

next_event-some :
    (len size : ℕ) (rest : List Event) (nx : Event)
    → next_event len size rest ≡ some nx
    → (after : List Event) × (rest ≡ nx ∷ after)
next_event-some len size [] nx h = ground arith
next_event-some len size (f ∷ fs) nx h = (fs, ground arith)

pub bytes-nil : (es : List Event) → length es ≡ 0 → bytes es ≡ 0
bytes-nil [] h = refl
bytes-nil (e ∷ es) h = absurd (omega arith)

-- After a round that consumed something the data lies in the buffer as before.
pub Lies-consumed :
    (ev : Event) (rest : List Event) (left n : ℕ) (first : Bool)
    → Lies (ev ∷ rest) left first
    → 0 < left
    → bytes (ev ∷ rest) ≤ inotify_read_buf_len
    → Consumes ev rest left first (some n)
    → Lies (advance n (ev ∷ rest)) (left - n) true
Lies-consumed ev rest left n first (inl e) p room one = rw (advance_one ev rest) (inl (omega arith))
Lies-consumed ev rest left n first (inr (inl z)) p room one = absurd (omega arith)
Lies-consumed ev rest left n first (inr (inr (l, q, f))) p room one =
    inr (inl (omega (arith, bytes-nil rest)))
Lies-consumed ev rest left n first (inl e) p room (both nx next pair) =
    let (after, same) = next_event-some (ev_len ev) left rest nx next in
    let sizes = ap bytes same in
    inl (
      omega (
        arith,
        sizes,
        ap bytes
            (ap (λ r. advance (ev_len ev + ev_len nx) (ev ∷ r)) same ∙ advance_two ev nx after),
      ))
Lies-consumed ev rest left n first (inr (inl z)) p room (both nx next pair) = absurd (omega arith)
Lies-consumed ev rest left n first (inr (inr (l, q, f))) p room (both nx next pair) =
    let (after, same) = next_event-some (ev_len ev) left rest nx next in
    absurd (omega (arith, ap (λ (r : List Event). length r) same))
Lies-consumed ev rest left n first l p room everything = inr (inl (omega arith))
