-- ===== src/Sockets/Tests.antt =====
-- The theorems on sockets/read_line.c, sockets/read_line_buf.c, sockets/rdwrn.c and sockets/sendfile.c at
-- concrete inputs.
use the_linux_programming_in.Prelude.{
  some, true, ℕ, ◌≡◌, refl, List, [], ◌∷◌, ◌++◌, map, arith, ltb, if◌then◌else◌,
}
use the_linux_programming_in.Syscall.{got, eof, wrote}
use the_linux_programming_in.Sockets.ReadLine.{line, newline, read_line, read_line_lem}
use the_linux_programming_in.Sockets.ReadLineBuf.{read_line_buf, LeavesLine, read_line_buf_lem}
use the_linux_programming_in.Sockets.Blocks.{Read, Write, done, writen, writen_total}
use the_linux_programming_in.Sockets.Sendfile.{moves, sendfile}
use the_linux_programming_in.Sockets.Sendfile.Range.{Copied, sendfile-sends}

abbrev text_ab : List ℕ
text_ab = b'a' ∷ b'b' ∷ []

read_line_lem_example :
    read_line 2 (map got (text_ab ++ newline ∷ []) ++ eof ∷ []) ≡ line (b'a' ∷ []) (eof ∷ [])
read_line_lem_example = read_line_lem 2 text_ab (eof ∷ []) (omega arith) (refl, (refl, tt))

read_line_buf_lem_example : LeavesLine (text_ab ++ newline ∷ []) (b'c' ∷ []) (
    read_line_buf 9
      (record { pending = b'a' ∷ []; reads = map got ((b'b', []) ∷ (newline, b'c' ∷ []) ∷ []) }))
read_line_buf_lem_example =
    read_line_buf_lem 9 ((b'b', []) ∷ (newline, b'c' ∷ []) ∷ []) (b'a' ∷ []) text_ab (b'c' ∷ [])
      (omega arith) (refl, (refl, tt)) refl

-- A byte at each read(), and at each write()
abbrev one_byte : Read
one_byte n = if ltb 0 n then got (b'a' ∷ []) else eof

abbrev takes_one : Write
takes_one bs = wrote 1

writen_total_example : writen (takes_one ∷ takes_one ∷ []) text_ab ≡ done text_ab
writen_total_example =
    writen_total (takes_one ∷ takes_one ∷ []) text_ab ((λ r. (0, refl)), ((λ r. (0, refl)), tt))
      (omega arith)

-- Two bytes from the second one on, one in each round
sendfile-sends_example :
    sendfile true
      (some 1)
      2
      (moves 1 8192 ∷ moves 1 8192 ∷ moves 1 8192 ∷ [])
      (record { content = b'x' ∷ text_ab ++ b'y' ∷ []; offset = 0 })
    ≡ Copied (some 1) (record { content = b'x' ∷ text_ab ++ b'y' ∷ []; offset = 0 }) text_ab
sendfile-sends_example =
    sendfile-sends (some 1) 2 (moves 1 8192 ∷ moves 1 8192 ∷ moves 1 8192 ∷ [])
      (record { content = b'x' ∷ text_ab ++ b'y' ∷ []; offset = 0 })
      (omega arith, omega arith, (omega arith, omega arith, (omega arith, omega arith, tt)))
      (omega arith)
