-- ===== src/Sockets/ReadLineBuf.antt =====
-- sockets/read_line_buf.c, `readLineBuf`: lines out of blocks that read() delivers.
use the_linux_programming_in.Prelude.{
  take-nil, ℕ, ◌<◌, ◌≡◌, refl, sym, ap, ◌∙◌, false, List, [], ◌∷◌, ◌++◌, map, take, length, arith,
  ltb, ◌==◌, if◌then◌else◌,
}
use mathlib.Core.Path.{subst, subst₂}
use mathlib.Core.List.{append_assoc, append-nil}
use the_linux_programming_in.Syscall.{ReadResult, got, eof, eintr, read_error}
use the_linux_programming_in.Sockets.ReadLine.{newline, HasNoNewline, store-take}

-- `struct ReadLineBuf`: `pending` are the bytes of `buf` from `next` up to `len`, `reads` what read()
-- will return for the descriptor: a block of a first byte and more, or the end of file for 0.
pub record ReadLineBuf : Type 0 where
  pub pending : List ℕ
  pub reads : List (ReadResult (ℕ × List ℕ))

unfoldable pub read_line_buf_init : List (ReadResult (ℕ × List ℕ)) → ReadLineBuf
read_line_buf_init reads = record { pending = []; reads = reads }

-- -1 with EINVAL or with the error of read(), a line and the buffer as it is left, or a wait
pub data Line : Type 0 where
  einval : Line
  io_error : Line
  line : List ℕ → ReadLineBuf → Line
  waiting : Line

-- `if (cnt < n) buffer[cnt++] = c;`
abbrev pub store : ℕ → List ℕ → ℕ → List ℕ
store n out c = if ltb (length out) n then out ++ c ∷ [] else out

-- The loop, over the blocks to come and the bytes of the present one. An interrupted read() is an
-- error like any other.
unfoldable pub read_line_buf_loop : ℕ → List (ReadResult (ℕ × List ℕ)) → List ℕ → List ℕ → Line
read_line_buf_loop n rs (c ∷ pending) out =
    let rest = read_line_buf_loop n rs pending (store n out c) in
    if c == newline then line (store n out c) (record { pending = pending; reads = rs }) else rest
read_line_buf_loop n [] [] out = waiting
read_line_buf_loop n (got (c, block) ∷ rs) [] out = read_line_buf_loop n rs (c ∷ block) out
read_line_buf_loop n (eof ∷ rs) [] out = line out (record { pending = []; reads = rs })
read_line_buf_loop n (eintr ∷ rs) [] out = io_error
read_line_buf_loop n (read_error ∷ rs) [] out = io_error

-- The argument `buffer` is not NULL in any call under sockets/.
unfoldable pub read_line_buf : ℕ → ReadLineBuf → Line
unfolding read_line_buf_loop
read_line_buf n b = if n == 0 then einval else read_line_buf_loop n b.reads b.pending []

-- The bytes that blocks deliver
abbrev pub joined : List (ℕ × List ℕ) → List ℕ
joined [] = []
joined ((c, b) ∷ bs) = c ∷ (b ++ joined bs)

-- A line, and what is left of the bytes behind it
abbrev pub LeavesLine : List ℕ → List ℕ → Line → Type 0
LeavesLine out after (line l b) =
    (l ≡ out) × (bs : List (ℕ × List ℕ)) × (b.reads ≡ map got bs) × (b.pending ++ joined bs ≡ after)
LeavesLine out after r = ⊥

loop_lem :
    (n : ℕ) (bs : List (ℕ × List ℕ)) (pending s cs after : List ℕ)
    → HasNoNewline cs
    → pending ++ joined bs ≡ cs ++ newline ∷ after
    → LeavesLine
        (take n (s ++ cs ++ newline ∷ []))
        after
        (read_line_buf_loop n (map got bs) pending (take n s))
unfolding read_line_buf_loop
loop_lem n [] [] s [] after h e = ground arith
loop_lem n [] [] s (x ∷ cs) after h e = ground arith
loop_lem n ((c, b) ∷ bs) [] s cs after h e = loop_lem n bs (c ∷ b) s cs after h e
loop_lem n bs (c ∷ pending) s [] after h e =
    let same : c ≡ newline = cc in
    let last : pending ++ joined bs ≡ after = cc in
    rw (same, ◌==◌)
      (
        store-take n s newline ∙ ap (λ t. take n (t ++ newline ∷ [])) (sym (append-nil s)),
        bs,
        refl,
        last,
      )
loop_lem n bs (c ∷ pending) s (x ∷ cs) after h e =
    let same : c ≡ x = cc in
    let more : pending ++ joined bs ≡ cs ++ newline ∷ after = cc in
    rw (same, h.0)
      (subst₂
        (λ u v.
          LeavesLine (take n (u ++ newline ∷ [])) after
            (read_line_buf_loop n (map got bs) pending v))
        (append_assoc s (x ∷ []) cs) (sym (store-take n s x))
        (loop_lem n bs pending (s ++ x ∷ []) cs after h.1 more))

-- If `n` is not 0: however a line and what follows it are split into blocks, and however much of
-- them the buffer holds already, `readLineBuf` returns the first `n` bytes of the line, its newline
-- included, and leaves exactly what follows the line.
pub read_line_buf_lem :
    (n : ℕ) (bs : List (ℕ × List ℕ)) (pending cs after : List ℕ)
    → 0 < n
    → HasNoNewline cs
    → pending ++ joined bs ≡ cs ++ newline ∷ after
    → LeavesLine
        (take n (cs ++ newline ∷ []))
        after
        (read_line_buf n (record { pending = pending; reads = map got bs }))
unfolding read_line_buf
read_line_buf_lem n bs pending cs after p h e =
    let pos : (n == 0) ≡ false = ground arith in
    rw pos (
      subst
        (λ l.
          LeavesLine (take n (cs ++ newline ∷ [])) after
            (read_line_buf_loop n (map got bs) pending l))
        (take-nil n) (loop_lem n bs pending [] cs after h e))
