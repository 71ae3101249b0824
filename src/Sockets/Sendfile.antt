-- ===== src/Sockets/Sendfile.antt =====
-- sockets/sendfile.c: sendfile() by read(), write() and lseek(). The input is a file with an offset; each
-- round of the loop is given by what its two calls are willing to do.
pub mod Range
use the_linux_programming_in.Prelude.{
  ℕ, ◌+◌, ◌-◌, ◌≡◌, Bool, true, false, Option, none, some, List, [], ◌∷◌, ◌++◌, length, take, drop,
  leb, ◌==◌, if◌then◌else◌,
}

abbrev pub buf_size : ℕ
buf_size = 8192

-- The file behind `in_fd`
pub record InFile : Type 0 where
  pub content : List ℕ
  pub offset : ℕ

-- A read() gives at most so many bytes, then a write() takes at most so many; or one of them fails.
pub data Round : Type 0 where
  moves : (most_read most_written : ℕ) → Round
  write_fails : ℕ → Round
  read_fails : Round

-- -1, the end of the program, or a wait for a round that is not given
pub data Ended : Type 0 where
  returned : ℕ → Ended
  minus_1 fatal waiting : Ended

-- How the loop or the function ends, the file, what was written to `out_fd`, and `*offset`
pub record Sent : Type 0 where
  pub ended : Ended
  pub file : InFile
  pub out : List ℕ
  pub offset : Option ℕ

-- `min(a, b)`
abbrev pub least : ℕ → ℕ → ℕ
least a b = if leb a b then a else b

-- read() of at most `to_read` bytes, at the end of the file of none
abbrev pub bytes_read : ℕ → ℕ → InFile → List ℕ
bytes_read most to_read f = take (least most to_read) (drop f.offset f.content)

abbrev pub after_read : List ℕ → InFile → InFile
after_read bytes f = record f { offset = f.offset + length bytes }

abbrev pub stop : Ended → InFile → List ℕ → Sent
stop e f out = record { ended = e; file = f; out = out; offset = none }

-- `min(BUF_SIZE, count)`
abbrev pub to_read : ℕ → ℕ
to_read count = least buf_size count

-- A round that reads `bytes`, of which write() takes `taken`, with the rest of the loop
unfoldable pub send_round : List ℕ → List ℕ → ℕ → ℕ → InFile → List ℕ → Sent → Sent
send_round bytes taken count tot f out rest =
    if count == 0
    then stop (returned tot) f out
    else if length bytes == 0
    then stop (returned tot) f out
    else if length taken == 0
    then stop fatal (after_read bytes f) out
    else rest

-- The loop, with `count`, `totSent` and the bytes written so far
unfoldable pub send_loop : List Round → ℕ → ℕ → InFile → List ℕ → Sent
unfolding send_round
send_loop [] count tot f out = if count == 0 then stop (returned tot) f out else stop waiting f out
send_loop (read_fails ∷ rs) count tot f out =
    if count == 0 then stop (returned tot) f out else stop minus_1 f out
send_loop (write_fails n ∷ rs) count tot f out =
    let bytes = bytes_read n (to_read count) f in
    if count == 0
    then stop (returned tot) f out
    else if length bytes == 0
    then stop (returned tot) f out
    else stop minus_1 (after_read bytes f) out
send_loop (moves n m ∷ rs) count tot f out =
    let bytes = bytes_read n (to_read count) f in
    let taken = take m bytes in
    send_round bytes taken count tot f out
      (send_loop rs (count - length taken) (tot + length taken) (after_read bytes f) (out ++ taken))

-- Behind the loop, where the offset of the file is reset; a return of -1 from the loop leaves it.
abbrev pub reset : ℕ → Ended → Sent → Sent
reset orig (returned tot) s = record s {
  file = record s.file { offset = orig };
  offset = some s.file.offset;
}
reset orig minus_1 s = s
reset orig fatal s = s
reset orig waiting s = s

-- `none` for `offset` is a null pointer; `seekable` says whether the first lseek() succeeds, and with it
-- the others.
unfoldable pub sendfile : Bool → Option ℕ → ℕ → List Round → InFile → Sent
unfolding send_loop
sendfile seekable none count rs f = send_loop rs count 0 f []
sendfile seekable (some offset) count rs f =
    let s = send_loop rs count 0 (record f { offset = offset }) [] in
    if seekable then reset f.offset s.ended s else stop minus_1 f []
