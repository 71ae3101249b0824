-- ===== src/Sockets/ReadLine.antt =====
-- sockets/read_line.c, `readLine`: a line, a byte at a time.
use mathlib.Core.List.{append_assoc, append-nil}
use the_linux_programming_in.Prelude.{
  take-nil, ℕ, zero, suc, ◌-◌, ◌<◌, ◌≡◌, refl, sym, ap, ◌∙◌, false, List, [], ◌∷◌, ◌++◌, map, take,
  length, arith, ltb, ◌==◌, if◌then◌else◌, Bool-cases, inl, inr,
}
use the_linux_programming_in.Syscall.{ReadResult, got, eof, eintr, read_error}

-- What `readLine` comes to: -1 with EINVAL or with the error of read(), a line and the results of
-- read() that are left, or a wait for a result that is not given.
pub data Line : Type 0 where
  einval : Line
  io_error : Line
  line : List ℕ → List (ReadResult ℕ) → Line
  waiting : Line

abbrev pub newline : ℕ
newline = b'\n'

-- `if (totRead < n - 1) { totRead++; *buf++ = ch; }`, where `totRead` is the length of the line so far
abbrev pub store : ℕ → List ℕ → ℕ → List ℕ
store n out ch = if ltb (length out) (n - 1) then out ++ ch ∷ [] else out

-- The loop, over the results of read()
unfoldable pub read_line_loop : ℕ → List ℕ → List (ReadResult ℕ) → Line
read_line_loop n out [] = waiting
read_line_loop n out (eintr ∷ rs) = read_line_loop n out rs
read_line_loop n out (read_error ∷ rs) = io_error
read_line_loop n out (eof ∷ rs) = line out rs
read_line_loop n out (got ch ∷ rs) =
    let rest = read_line_loop n (store n out ch) rs in
    if ch == newline then line (store n out ch) rs else rest

-- The argument `buffer` is not NULL in any call under sockets/.
unfoldable pub read_line : ℕ → List (ReadResult ℕ) → Line
unfolding read_line_loop
read_line n rs = if n == 0 then einval else read_line_loop n [] rs

-- The line as it stands in the input, up to its newline
abbrev pub HasNoNewline : List ℕ → Type 0
HasNoNewline [] = Unit
HasNoNewline (c ∷ cs) = ((c == newline) ≡ false) × HasNoNewline cs

abbrev pub without_eintr : List (ReadResult ℕ) → List (ReadResult ℕ)
without_eintr [] = []
without_eintr (eintr ∷ rs) = without_eintr rs
without_eintr (got c ∷ rs) = got c ∷ without_eintr rs
without_eintr (eof ∷ rs) = eof ∷ without_eintr rs
without_eintr (read_error ∷ rs) = read_error ∷ without_eintr rs

abbrev pub line_map : Line → Line
line_map (line out rs) = line out (without_eintr rs)
line_map einval = einval
line_map io_error = io_error
line_map waiting = waiting

-- A byte is stored only while it is among the first `m`.
pub store-take :
    (m : ℕ) (s : List ℕ) (c : ℕ)
    → (if ltb (length (take m s)) m then take m s ++ c ∷ [] else take m s) ≡ take m (s ++ c ∷ [])
store-take zero s c = refl
store-take (suc m) [] c = ground (arith, take-nil {A = ℕ} m)
store-take (suc m) (x ∷ s) c = ground (arith, store-take m s c)

read_line_loop_lem :
    (n : ℕ) (s cs : List ℕ) (rs : List (ReadResult ℕ))
    → HasNoNewline cs
    → read_line_loop n (take (n - 1) s) (map got (cs ++ newline ∷ []) ++ rs)
      ≡ line (take (n - 1) (s ++ cs ++ newline ∷ [])) rs
unfolding read_line_loop
read_line_loop_lem n s [] rs h =
    ap (λ l. line l rs) (store-take (n - 1) s newline)
    ∙ ap (λ t. line (take (n - 1) (t ++ newline ∷ [])) rs) (sym (append-nil s))
read_line_loop_lem n s (c ∷ cs) rs h = rw h.0 (
    ap (λ l. read_line_loop n l (map got (cs ++ newline ∷ []) ++ rs)) (store-take (n - 1) s c)
    ∙ read_line_loop_lem n (s ++ c ∷ []) cs rs h.1
    ∙ ap (λ t. line (take (n - 1) (t ++ newline ∷ [])) rs) (append_assoc s (c ∷ []) cs))

read_line-pos : (n : ℕ) (rs : List (ReadResult ℕ)) → 0 < n → read_line n rs ≡ read_line_loop n [] rs
unfolding read_line
read_line-pos n rs h = ground arith

-- If `n` is not 0, `readLine` takes from a line that ends in a newline exactly that line from the
-- input, and returns the first `n - 1` bytes of it, its newline included.
pub read_line_lem :
    (n : ℕ) (cs : List ℕ) (rs : List (ReadResult ℕ))
    → 0 < n
    → HasNoNewline cs
    → read_line n (map got (cs ++ newline ∷ []) ++ rs) ≡ line (take (n - 1) (cs ++ newline ∷ [])) rs
read_line_lem n cs rs p h =
    read_line-pos n _ p
    ∙ ap (λ (l : List ℕ). read_line_loop n l (map got (cs ++ newline ∷ []) ++ rs))
        (sym (take-nil (n - 1)))
    ∙ read_line_loop_lem n [] cs rs h

read_line_loop-eintr :
    (n : ℕ) (out : List ℕ) (rs : List (ReadResult ℕ))
    → line_map (read_line_loop n out rs) ≡ read_line_loop n out (without_eintr rs)
unfolding read_line_loop
read_line_loop-eintr n out [] = refl
read_line_loop-eintr n out (eintr ∷ rs) = read_line_loop-eintr n out rs
read_line_loop-eintr n out (read_error ∷ rs) = refl
read_line_loop-eintr n out (eof ∷ rs) = refl
read_line_loop-eintr n out (got ch ∷ rs) = elim (Bool-cases (ch == newline)) [
  | inl e ↦ rw e
  | inr e ↦ rw e (read_line_loop-eintr n (store n out ch) rs)
]

-- What `readLine` returns does not depend on where its read() calls are interrupted by signals.
pub read_line-eintr :
    (n : ℕ) (rs : List (ReadResult ℕ)) → line_map (read_line n rs) ≡ read_line n (without_eintr rs)
unfolding read_line
read_line-eintr n rs = elim (Bool-cases (n == 0)) [
  | inl e ↦ rw e
  | inr e ↦ rw e (read_line_loop-eintr n [] rs)
]
