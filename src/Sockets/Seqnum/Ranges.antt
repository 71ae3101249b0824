-- ===== src/Sockets/Seqnum/Ranges.antt =====
-- The numbers that sockets/is_seqnum_sv.c hands out.
use the_linux_programming_in.Prelude.{
  Bool, true, false, ap, ◌∙◌, take-eq_of_le, length-append, ◌-◌, take, length, ℕ, zero, suc, ◌+◌,
  ◌%◌, ◌^◌, ◌≤◌, ◌<◌, ◌≡◌, refl, Option, none, some, List, [], ◌∷◌, ◌++◌, ◌-◌, map, take, length,
  length-take, arith, ℤ, pos, negsuc,
}
use the_linux_programming_in.CString.{snprintf}
use the_linux_programming_in.Syscall.{got, ReadResult}
use the_linux_programming_in.Sockets.ReadLine.{
  read_line_lem, newline, HasNoNewline, Line, einval, io_error, line, waiting, read_line,
}
use the_linux_programming_in.Sockets.Seqnum.{
  snprintf, Client, write_failed, as_int, Round, not_accepted, skipped, stuck, served, int_len,
  seq_num_str, answer, handle, round, after_round, before, serve,
}

module _ (atoi : List ℕ → ℤ) (int_text : ℤ → List ℕ) where
  -- The ranges follow each other from `lo` on, on 32 bits, and each client that is answered is sent the text
  -- of its own first number.
  abbrev InOrder : ℕ → List Round → Type 0
  InOrder lo [] = Unit
  InOrder lo (not_accepted ∷ rs) = InOrder lo rs
  InOrder lo (skipped ∷ rs) = InOrder lo rs
  InOrder lo (stuck ∷ rs) = InOrder lo rs
  InOrder lo (served s n t ∷ rs) =
      (s ≡ lo % 2 ^ 32) × (0 < n) × (t ≡ seq_num_str atoi int_text s) × InOrder (lo + n) rs
  InOrder lo (write_failed s n ∷ rs) = (s ≡ lo % 2 ^ 32) × (0 < n) × InOrder (lo + n) rs

  answer-InOrder :
      (lo s : ℕ) (b : Bool) (v : ℤ) (rs : ℕ → List Round)
      → s ≡ lo % 2 ^ 32
      → ((hi t : ℕ) → t ≡ hi % 2 ^ 32 → InOrder hi (rs t))
      → InOrder lo
          (before (answer atoi int_text s b v) (rs (after_round s (answer atoi int_text s b v))))
  unfolding answer
  answer-InOrder lo s b (negsuc n) rs e h = h lo s e
  answer-InOrder lo s b (pos zero) rs e h = h lo s e
  answer-InOrder lo s true (pos (suc n)) rs e h =
      (e, omega arith, refl, h (lo + suc n) ((s + suc n) % 2 ^ 32) (omega (arith, e)))
  answer-InOrder lo s false (pos (suc n)) rs e h =
      (e, omega arith, h (lo + suc n) ((s + suc n) % 2 ^ 32) (omega (arith, e)))

  handle-InOrder :
      (lo s : ℕ) (b : Bool) (l : Line) (rs : ℕ → List Round)
      → s ≡ lo % 2 ^ 32
      → ((hi t : ℕ) → t ≡ hi % 2 ^ 32 → InOrder hi (rs t))
      → InOrder lo
          (before (handle atoi int_text s b l) (rs (after_round s (handle atoi int_text s b l))))
  unfolding handle
  handle-InOrder lo s b einval rs e h = h lo s e
  handle-InOrder lo s b io_error rs e h = h lo s e
  handle-InOrder lo s b waiting rs e h = tt
  handle-InOrder lo s b (line [] r) rs e h = h lo s e
  handle-InOrder lo s b (line (c ∷ cs) r) rs e h = answer-InOrder lo s b (atoi (c ∷ cs)) rs e h

  round-InOrder :
      (lo s : ℕ) (c : Option Client) (rs : ℕ → List Round)
      → s ≡ lo % 2 ^ 32
      → ((hi t : ℕ) → t ≡ hi % 2 ^ 32 → InOrder hi (rs t))
      → InOrder lo (before (round atoi int_text s c) (rs (after_round s (round atoi int_text s c))))
  unfolding round
  round-InOrder lo s none rs e h = h lo s e
  round-InOrder lo s (some client) rs e h =
      handle-InOrder lo s client.write_works (read_line int_len client.reads) rs e h

  serve_from :
      (clients : List (Option Client)) (lo s : ℕ)
      → s ≡ lo % 2 ^ 32
      → InOrder lo (serve atoi int_text s clients)
  unfolding serve
  serve_from [] lo s e = tt
  serve_from (c ∷ cs) lo s e =
      round-InOrder lo s c (λ t. serve atoi int_text t cs) e (serve_from cs)

  -- How many numbers were handed out
  abbrev pub total : List Round → ℕ
  total [] = 0
  total (not_accepted ∷ rs) = total rs
  total (skipped ∷ rs) = total rs
  total (stuck ∷ rs) = total rs
  total (served s n t ∷ rs) = n + total rs
  total (write_failed s n ∷ rs) = n + total rs

  -- All ranges lie in the numbers from `lo` on that are less than `hi`.
  abbrev pub Within : ℕ → ℕ → List Round → Type 0
  Within lo hi [] = Unit
  Within lo hi (not_accepted ∷ rs) = Within lo hi rs
  Within lo hi (skipped ∷ rs) = Within lo hi rs
  Within lo hi (stuck ∷ rs) = Within lo hi rs
  Within lo hi (served s n t ∷ rs) = (lo ≤ s) × (s + n ≤ hi) × Within lo hi rs
  Within lo hi (write_failed s n ∷ rs) = (lo ≤ s) × (s + n ≤ hi) × Within lo hi rs

  -- No two clients get a number in common, and atoi() reads the first of its own out of what a client is
  -- sent.
  abbrev pub Disjoint : ℕ → List Round → Type 0
  Disjoint hi [] = Unit
  Disjoint hi (not_accepted ∷ rs) = Disjoint hi rs
  Disjoint hi (skipped ∷ rs) = Disjoint hi rs
  Disjoint hi (stuck ∷ rs) = Disjoint hi rs
  Disjoint hi (served s n t ∷ rs) =
      (0 < n) × (atoi t ≡ pos s) × Within (s + n) hi rs × Disjoint hi rs
  Disjoint hi (write_failed s n ∷ rs) = (0 < n) × Within (s + n) hi rs × Disjoint hi rs

  InOrder-Within :
      (rs : List Round) (least lo hi : ℕ)
      → least ≤ lo
      → lo + total rs ≤ hi
      → hi ≤ 2 ^ 31
      → InOrder lo rs
      → Within least hi rs
  InOrder-Within [] l lo hi a b c h = tt
  InOrder-Within (not_accepted ∷ rs) l lo hi a b c h = InOrder-Within rs l lo hi a b c h
  InOrder-Within (skipped ∷ rs) l lo hi a b c h = InOrder-Within rs l lo hi a b c h
  InOrder-Within (stuck ∷ rs) l lo hi a b c h = InOrder-Within rs l lo hi a b c h
  InOrder-Within (served s n t ∷ rs) l lo hi a b c h =
      let same : s ≡ lo = omega (arith, h.0, h.1) in
      (omega arith, omega arith, InOrder-Within rs l (lo + n) hi (omega arith) (omega arith) c h.3)
  InOrder-Within (write_failed s n ∷ rs) l lo hi a b c h =
      let same : s ≡ lo = omega (arith, h.0, h.1) in
      (omega arith, omega arith, InOrder-Within rs l (lo + n) hi (omega arith) (omega arith) c h.2)

  -- Of an int that is not negative printf() makes a text of ten digits at most, which atoi() reads.
  pub record IsText : Type 0 where
    pub short : (n : ℕ) → n < 2 ^ 31 → length (int_text (pos n)) ≤ 10
    pub read : (n : ℕ) → n < 2 ^ 31 → atoi (int_text (pos n) ++ newline ∷ []) ≡ pos n

  -- What a client is sent, while the numbers fit an int
  seq_num_str_lem : IsText → (n : ℕ) → n < 2 ^ 31 → atoi (seq_num_str atoi int_text n) ≡ pos n
  unfolding seq_num_str snprintf as_int
  seq_num_str_lem x n h =
      let int : as_int n ≡ pos n = ground (arith, h) in
      let whole : take (int_len - 1) (int_text (pos n) ++ newline ∷ [])
          ≡ int_text (pos n) ++ newline ∷ [] =
        take-eq_of_le (int_len - 1) (int_text (pos n) ++ newline ∷ [])
          (omega (arith, length-append (int_text (pos n)) (newline ∷ []), x.short n h)) in
      ap (λ v. atoi (take (int_len - 1) (int_text v ++ newline ∷ []))) int
      ∙ ap atoi whole
      ∙ x.read n h

  InOrder-Disjoint :
      (rs : List Round) (lo hi : ℕ)
      → IsText
      → lo + total rs ≤ hi
      → hi ≤ 2 ^ 31
      → InOrder lo rs
      → Disjoint hi rs
  InOrder-Disjoint [] lo hi x b c h = tt
  InOrder-Disjoint (not_accepted ∷ rs) lo hi x b c h = InOrder-Disjoint rs lo hi x b c h
  InOrder-Disjoint (skipped ∷ rs) lo hi x b c h = InOrder-Disjoint rs lo hi x b c h
  InOrder-Disjoint (stuck ∷ rs) lo hi x b c h = InOrder-Disjoint rs lo hi x b c h
  InOrder-Disjoint (served s n t ∷ rs) lo hi x b c h =
      let same : s ≡ lo = omega (arith, h.0, h.1) in
      (
        h.1,
        ap atoi h.2 ∙ seq_num_str_lem x s (omega (arith, same, b, c, h.1)),
        InOrder-Within rs (s + n) (lo + n) hi (omega arith) (omega arith) c h.3,
        InOrder-Disjoint rs (lo + n) hi x (omega arith) c h.3,
      )
  InOrder-Disjoint (write_failed s n ∷ rs) lo hi x b c h =
      let same : s ≡ lo = omega (arith, h.0, h.1) in
      (
        h.1,
        InOrder-Within rs (s + n) (lo + n) hi (omega arith) (omega arith) c h.2,
        InOrder-Disjoint rs (lo + n) hi x (omega arith) c h.2,
      )

  -- Whatever the clients send and whatever write() fails, as long as the numbers stay within an int, as
  -- which they are printed: no two clients are given a number in common, each range is above those that were
  -- given before, and out of what a client is sent, if that write() does not fail, atoi() reads the first
  -- number of its own range.
  pub serve-Disjoint :
      (clients : List (Option Client)) (seq_num : ℕ)
      → IsText
      → seq_num < 2 ^ 31
      → seq_num + total (serve atoi int_text seq_num clients) ≤ 2 ^ 31
      → Disjoint
          (seq_num + total (serve atoi int_text seq_num clients))
          (serve atoi int_text seq_num clients)
  serve-Disjoint clients s x b h =
      InOrder-Disjoint (serve atoi int_text s clients) s (s + total (serve atoi int_text s clients))
        x (omega arith) h (serve_from clients s s (omega arith))

  handled :
      (s n : ℕ) (l : Line) (text : List ℕ) (rs : List (ReadResult ℕ))
      → l ≡ line text rs
      → 0 < length text
      → atoi text ≡ pos (suc n)
      → handle atoi int_text s true l ≡ served s (suc n) (seq_num_str atoi int_text s)
  unfolding handle answer
  handled s n l [] rs e h a = absurd (omega (arith, h))
  handled s n l (c ∷ cs) rs e h a = rw (e, a) refl

  -- A client that sends a line, of which atoi() makes a positive number, is given that many numbers from
  -- `seqNum` on, and is told `seqNum`, if the write() to it works; only the first 29 bytes of the line count.
  pub round-served :
      (s n : ℕ) (cs : List ℕ) (rs : List (ReadResult ℕ))
      → HasNoNewline cs
      → atoi (take (int_len - 1) (cs ++ newline ∷ [])) ≡ pos (suc n)
      → round atoi int_text s
          (some (record { reads = map got (cs ++ newline ∷ []) ++ rs; write_works = true }))
        ≡ served s (suc n) (seq_num_str atoi int_text s)
  unfolding round
  round-served s n cs rs h a =
      handled s n _ (take (int_len - 1) (cs ++ newline ∷ [])) rs
        (read_line_lem int_len cs rs (omega arith) h)
        (ground
          (arith, length-take (int_len - 1) (cs ++ newline ∷ []), length-append cs (newline ∷ [])))
        a
