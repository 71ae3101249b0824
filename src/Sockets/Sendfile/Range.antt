-- ===== src/Sockets/Sendfile/Range.antt =====
-- What sockets/sendfile.c sends.
use the_linux_programming_in.Prelude.{
  take-eq_of_le, ℕ, zero, suc, ◌+◌, ◌-◌, ◌≤◌, ◌<◌, ◌≡◌, refl, sym, ap, ◌∙◌, inl, inr, true, Option,
  none, some, List, [], ◌∷◌, ◌++◌, length, take, drop, ◌==◌, arith, Bool-cases, length-take,
  take-nil, drop-nil, length-append,
}
use mathlib.Core.List.{append_assoc, append-nil}
use the_linux_programming_in.Sockets.Sendfile.{
  send_round, buf_size, InFile, Round, moves, write_fails, read_fails, returned, Sent, least,
  bytes_read, after_read, stop, to_read, send_loop, reset, sendfile,
}

-- Each round reads something, if there is anything, and writes all of it.
abbrev pub Whole : List Round → Type 0
Whole [] = Unit
Whole (moves n m ∷ rs) = (0 < n) × (buf_size ≤ m) × Whole rs
Whole (write_fails n ∷ rs) = ⊥
Whole (read_fails ∷ rs) = ⊥

drop-drop : (a b : ℕ) (xs : List ℕ) → drop (a + b) xs ≡ drop b (drop a xs)
drop-drop zero b xs = let e : 0 + b ≡ b = omega arith in ap (λ n. drop n xs) e
drop-drop (suc a) b [] = drop-nil (suc a + b) ∙ sym (drop-nil b)
drop-drop (suc a) b (x ∷ xs) =
    let e : suc a + b ≡ suc (a + b) = omega arith in ap (λ n. drop n (x ∷ xs)) e ∙ drop-drop a b xs

-- A range in two parts
take_parts :
    (k n : ℕ) (xs : List ℕ)
    → k ≤ n
    → take n xs ≡ take k xs ++ take (n - length (take k xs)) (drop (length (take k xs)) xs)
take_parts zero n xs h = let e : n ≡ n - 0 = omega arith in ap (λ m. take m xs) e
take_parts (suc k) n [] h = take-nil n ∙ sym (take-nil (n - 0))
take_parts (suc k) zero (x ∷ xs) h = absurd (omega arith)
take_parts (suc k) (suc n) (x ∷ xs) h =
    let l = length (take k xs) in
    let e : n - l ≡ suc n - suc l = omega arith in
    ap (λ t. x ∷ t) (take_parts k n xs (omega arith) ∙ ap (λ d. take k xs ++ take d (drop l xs)) e)

no_bytes : (k : ℕ) (xs : List ℕ) → 0 < k → length (take k xs) ≡ 0 → xs ≡ []
no_bytes (suc k) [] p h = refl
no_bytes (suc k) (x ∷ xs) p h = absurd (omega (arith, h))
no_bytes zero xs p h = absurd (omega arith)

nothing_left :
    (k count : ℕ) (xs : List ℕ) → (0 < count → 0 < k) → length (take k xs) ≡ 0 → take count xs ≡ []
nothing_left k zero xs p h = refl
nothing_left k (suc count) xs p h = ap (take (suc count)) (no_bytes k xs (p (omega arith)) h)

-- What the loop leaves, if `sent` is what it sends from the place where the file stands
abbrev After : ℕ → InFile → List ℕ → List ℕ → Sent
After tot f out sent = record {
  ended = returned (tot + length sent);
  file = record f { offset = f.offset + length sent };
  out = out ++ sent;
  offset = none;
}

nothing-After :
    (tot : ℕ) (f : InFile) (out sent : List ℕ)
    → sent ≡ []
    → stop (returned tot) f out ≡ After tot f out sent
nothing-After tot f out sent h = rw h (ground (arith, append-nil out))

After-append :
    (tot : ℕ) (f : InFile) (out b r : List ℕ)
    → After (tot + length b) (after_read b f) (out ++ b) r ≡ After tot f out (b ++ r)
After-append tot f out b r = ground (arith, append_assoc out b r, length-append b r)

-- Where the copy begins
abbrev pub from : Option ℕ → InFile → ℕ
from none f = f.offset
from (some offset) f = offset

-- A copy of `bytes`
abbrev pub Copied : Option ℕ → InFile → List ℕ → Sent
Copied none f bytes = record {
  ended = returned (length bytes);
  file = record f { offset = f.offset + length bytes };
  out = bytes;
  offset = none;
}
Copied (some offset) f bytes = record {
  ended = returned (length bytes);
  file = f;
  out = bytes;
  offset = some (offset + length bytes);
}

-- A round that reads the bytes `b` and writes them all
round-sends :
    (count tot : ℕ) (f : InFile) (out b t whole : List ℕ) (rest : Sent)
    → (count ≡ 0 → whole ≡ [])
    → (length b ≡ 0 → whole ≡ [])
    → t ≡ b
    → (0 < length b → rest ≡ After tot f out whole)
    → send_round b t count tot f out rest ≡ After tot f out whole
unfolding send_round
round-sends count tot f out b t whole rest c z s e = elim (Bool-cases (count == 0)) [
  | inl p ↦ rw p (nothing-After tot f out whole (c (ground (arith, p))))
  | inr q ↦ elim (Bool-cases (length b == 0)) [
    | inl p ↦ rw (q, p) (nothing-After tot f out whole (z (ground (arith, p))))
    | inr p ↦ rw (q, s, p) (e (ground (arith, p)))
  ]
]

loop-sends :
    (rs : List Round) (count tot : ℕ) (f : InFile) (out : List ℕ)
    → Whole rs
    → count < length rs
    → send_loop rs count tot f out ≡ After tot f out (take count (drop f.offset f.content))
unfolding send_loop
loop-sends [] count tot f out w h = absurd (omega (arith, h))
loop-sends (write_fails n ∷ rs) count tot f out w h = absurd w
loop-sends (read_fails ∷ rs) count tot f out w h = absurd w
loop-sends (moves n m ∷ rs) count tot f out w h =
    let xs = drop f.offset f.content in
    let b = bytes_read n (to_read count) f in
    let within : least n (to_read count) ≤ count = ground arith in
    let short : length b ≤ least n (to_read count) =
      omega (arith, length-take (least n (to_read count)) xs) in
    let all : take m b ≡ b = take-eq_of_le m b (ground (arith, short, w.1)) in
    let rest = take (count - length b) (drop (f.offset + length b) f.content) in
    let parts : take count xs ≡ b ++ rest =
      take_parts (least n (to_read count)) count xs within
      ∙ ap (λ t. b ++ take (count - length b) t) (sym (drop-drop f.offset (length b) f.content)) in
    round-sends count tot f out b (take m b) (take count xs) _ (λ e. ap (λ c. take c xs) e)
      (nothing_left (least n (to_read count)) count xs (λ p. ground (arith, w.0, p))) all
      (λ some_bytes.
        ap (λ t. send_loop rs (count - length t) (tot + length t) (after_read b f) (out ++ t)) all
        ∙ loop-sends rs (count - length b) (tot + length b) (after_read b f) (out ++ b) w.2
            (omega (arith, some_bytes, short, within, h))
        ∙ After-append tot f out b rest
        ∙ ap (After tot f out) (sym parts))

-- With rounds that read something if there is anything, and write all of it, and enough of them: sendfile()
-- writes the `count` bytes from the offset on, or those up to the end of the file; returns their number;
-- and sets the offset that it was given behind them, in place of that of the file.
pub sendfile-sends :
    (offset : Option ℕ) (count : ℕ) (rs : List Round) (f : InFile)
    → Whole rs
    → count < length rs
    → sendfile true offset count rs f
      ≡ Copied offset f (take count (drop (from offset f) f.content))
unfolding sendfile
sendfile-sends none count rs f w h = loop-sends rs count 0 f [] w h ∙ ground arith
sendfile-sends (some offset) count rs f w h =
    ap (λ s. reset f.offset s.ended s) (loop-sends rs count 0 (record f { offset = offset }) [] w h)
    ∙ ground arith
