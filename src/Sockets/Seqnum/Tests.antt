-- ===== src/Sockets/Seqnum/Tests.antt =====
-- The theorems on sockets/is_seqnum_sv.c at concrete inputs.
use mathlib.Core.List.{append_assoc}
use the_linux_programming_in.Prelude.{
  zero, suc, length, length-append, ◌++◌, ◌*◌, ◌/◌, ◌%◌, ◌<◌, ◌∙◌, ◌&&◌, leb, ltb, ltb→lt,
  Bool-cases, inl, inr, if◌then◌else◌, true, false, ◌≡◌, ap, negsuc, ℕ, ◌+◌, ◌-◌, ◌^◌, ◌≤◌, Option,
  none, some, List, [], ◌∷◌, arith, ℤ, pos,
}
use the_linux_programming_in.Syscall.{got, eof}
use the_linux_programming_in.Sockets.ReadLine.{newline, read_line, read_line_loop}
use the_linux_programming_in.Sockets.Seqnum.{
  Client, as_int, serve, round, handle, answer, seq_num_str,
}
use the_linux_programming_in.Sockets.Seqnum.Ranges.{IsText, Disjoint, total, serve-Disjoint}

-- atoi() of a text without blanks and sign: up to the first byte that is no digit
abbrev value : ℕ → List ℕ → ℕ
value acc [] = acc
value acc (c ∷ cs) =
    let rest = value (acc * 10 + (c - b'0')) cs in if leb b'0' c && leb c b'9' then rest else acc

abbrev atoi : List ℕ → ℤ
atoi s = pos (value 0 s)

-- The decimal digits of a number with `k` digits at most
abbrev digits : ℕ → ℕ → List ℕ
digits zero n = []
digits (suc k) n =
    let rest = digits k (n / 10) in
    if ltb n 10 then (b'0' + n) ∷ [] else rest ++ (b'0' + n % 10) ∷ []

abbrev int_text : ℤ → List ℕ
int_text (pos n) = digits 10 n
int_text (negsuc n) = b'-' ∷ digits 10 (n + 1)

abbrev ten_to : ℕ → ℕ
ten_to zero = 1
ten_to (suc k) = 10 * ten_to k

length-digits : (k n : ℕ) → length (digits k n) ≤ k
length-digits zero n = omega arith
length-digits (suc k) n =
    ground
      (arith, length-append (digits k (n / 10)) ((b'0' + n % 10) ∷ []), length-digits k (n / 10))

value-digit :
    (acc d : ℕ) (rest : List ℕ) → d < 10 → value acc ((b'0' + d) ∷ rest) ≡ value (acc * 10 + d) rest
value-digit acc d rest h =
    let e : acc * 10 + (b'0' + d - b'0') ≡ acc * 10 + d = omega arith in
    ground (arith, ap (λ v. value v rest) e)

value-digits :
    (k n : ℕ) (rest : List ℕ) → n < ten_to k → value 0 (digits k n ++ rest) ≡ value n rest
value-digits zero n rest h = ap (λ v. value v rest) (omega (arith, h))
value-digits (suc k) n rest h = elim (Bool-cases (ltb n 10)) [
  | inl b ↦
      let first : 0 * 10 + n ≡ n = omega arith in
      rw b (value-digit 0 n rest (ltb→lt _ _ b) ∙ ap (λ v. value v rest) first)
  | inr b ↦
      let c = b'0' + n % 10 in
      let last : value (n / 10) (c ∷ rest) ≡ value n rest =
        value-digit (n / 10) (n % 10) rest (omega arith) ∙ ap (λ v. value v rest) (omega arith) in
      rw b (
        ap (value 0) (append_assoc (digits k (n / 10)) (c ∷ []) rest)
        ∙ value-digits k (n / 10) (c ∷ rest) (omega (arith, h))
        ∙ last)
]

digits-IsText : IsText atoi int_text
digits-IsText = record {
  short = λ n h. length-digits 10 n;
  read = λ n h. ap pos (value-digits 10 n (newline ∷ []) (omega (arith, h)));
}

abbrev asks_2 : Client
asks_2 = record { reads = got b'2' ∷ got newline ∷ []; write_works = true }

-- A client that is served, one that fails, one that closes at once, one that cannot be answered, and
-- another that is served
abbrev clients : List (Option Client)
clients =
    some asks_2
    ∷ none
    ∷ some (record { reads = eof ∷ []; write_works = true })
    ∷ some (record asks_2 { write_works = false })
    ∷ some asks_2
    ∷ []

fits : 3 + total atoi int_text (serve atoi int_text 3 clients) ≤ 2 ^ 31
unfolding serve round handle answer seq_num_str as_int read_line read_line_loop
fits = omega arith

serve-Disjoint_example :
    Disjoint atoi int_text
      (3 + total atoi int_text (serve atoi int_text 3 clients))
      (serve atoi int_text 3 clients)
serve-Disjoint_example = serve-Disjoint atoi int_text clients 3 digits-IsText (omega arith) fits
