-- ===== src/Sockets/Seqnum.antt =====
-- sockets/is_seqnum_sv.c: a server that hands out numbers. A client is what its read() will give, and
-- whether the write() to it takes the whole answer; atoi() and the text that printf() makes of an int are
-- parameters.
pub mod Ranges
mod Tests
use the_linux_programming_in.Prelude.{
  true, false, ltb, ◌-◌, ℕ, zero, suc, sym, ap, ◌∙◌, ◌⊎◌, inl, inr, ◌+◌, ◌%◌, ◌^◌, ◌≤◌, ◌<◌, ◌≡◌,
  refl, Bool, Option, none, some, List, [], ◌∷◌, ◌++◌, length, arith, if◌then◌else◌, ℤ, pos, negsuc,
}
use the_linux_programming_in.CString.{snprintf}
use the_linux_programming_in.Syscall.{ReadResult}
use the_linux_programming_in.Sockets.ReadLine.{
  Line, einval, io_error, line, waiting, newline, read_line,
}

-- INT_LEN
abbrev pub int_len : ℕ
int_len = 30

-- A client, by its reads and its write()
pub record Client : Type 0 where
  pub reads : List (ReadResult ℕ)
  pub write_works : Bool

-- A round of the loop: accept() failed; the connection was closed with no answer; a text was sent for a
-- request, or could not be, with the `seqNum` and `reqLen` of the round; or the round never ends, since the
-- client sends no line.
pub data Round : Type 0 where
  not_accepted skipped stuck : Round
  served : (seq_num req_len : ℕ) → List ℕ → Round
  write_failed : (seq_num req_len : ℕ) → Round

-- `seqNum += reqLen`, on 32 bits
abbrev pub after_round : ℕ → Round → ℕ
after_round seq_num not_accepted = seq_num
after_round seq_num skipped = seq_num
after_round seq_num stuck = seq_num
after_round seq_num (served s n t) = (seq_num + n) % 2 ^ 32
after_round seq_num (write_failed s n) = (seq_num + n) % 2 ^ 32

-- The server never gets on after a client that sends no line.
abbrev pub before : Round → List Round → List Round
before stuck rs = stuck ∷ []
before not_accepted rs = not_accepted ∷ rs
before skipped rs = skipped ∷ rs
before (served s n t) rs = served s n t ∷ rs
before (write_failed s n) rs = write_failed s n ∷ rs

-- What `%d` prints of a uint32_t
unfoldable pub as_int : ℕ → ℤ
as_int n = if ltb n (2 ^ 31) then pos n else negsuc (2 ^ 32 - 1 - n)

module _ (atoi : List ℕ → ℤ) (int_text : ℤ → List ℕ) where
  -- `snprintf(seqNumStr, INT_LEN, "%d\\n", seqNum)`
  unfoldable pub seq_num_str : ℕ → List ℕ
  unfolding snprintf as_int
  seq_num_str seq_num = snprintf int_len (int_text (as_int seq_num) ++ newline ∷ [])

  -- `if (reqLen <= 0)`, and the answer; an error of write() is only reported.
  unfoldable pub answer : ℕ → Bool → ℤ → Round
  unfolding seq_num_str
  answer seq_num write_works (negsuc n) = skipped
  answer seq_num write_works (pos zero) = skipped
  answer seq_num true (pos (suc n)) = served seq_num (suc n) (seq_num_str seq_num)
  answer seq_num false (pos (suc n)) = write_failed seq_num (suc n)

  -- `if (readLine(…) <= 0)`, then the request
  unfoldable pub handle : ℕ → Bool → Line → Round
  unfolding answer
  handle seq_num write_works einval = skipped
  handle seq_num write_works io_error = skipped
  handle seq_num write_works waiting = stuck
  handle seq_num write_works (line [] rs) = skipped
  handle seq_num write_works (line (c ∷ cs) rs) = answer seq_num write_works (atoi (c ∷ cs))

  -- A round, where accept() may fail (`none`)
  unfoldable pub round : ℕ → Option Client → Round
  unfolding handle read_line
  round seq_num none = not_accepted
  round seq_num (some client) = handle seq_num client.write_works (read_line int_len client.reads)

  -- The loop, over the clients that come
  unfoldable pub serve : ℕ → List (Option Client) → List Round
  unfolding round
  serve seq_num [] = []
  serve seq_num (client ∷ clients) =
      before (round seq_num client) (serve (after_round seq_num (round seq_num client)) clients)
