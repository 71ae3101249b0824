-- ===== src/Inotify/Loop.antt =====
-- inotify/inotify_dtree.c, `processInotifyEvents`: the loop over the events of one read().

pub mod Consumption
pub mod Layout
pub mod Ends
use the_linux_programming_in.Prelude.{
  ℕ, zero, suc, ◌+◌, ◌-◌, Bool, true, false, Option, none, some, List, [], ◌∷◌, ◌++◌, ◌*◌, length,
  ltb, if◌then◌else◌,
}
use the_linux_programming_in.Syscall.{ReadResult, got, eof, eintr, read_error}
use the_linux_programming_in.Inotify.Watcher.{
  Kernel, Watcher, Outcome, exit_failure, M, ◌>>=◌, ◌>>◌, pure, exit, fault, modify,
}
use the_linux_programming_in.Inotify.Events.{
  Event, ev_len, inotify_read_buf_len, process_next_inotify_event,
}

-- The bytes that a list of events takes in the buffer
abbrev pub bytes : List Event → ℕ
bytes [] = 0
bytes (e ∷ es) = ev_len e + bytes es

-- `evp += evLen`: the events that begin at or after the new position
unfoldable pub advance : ℕ → List Event → List Event
advance n [] = []
advance zero (e ∷ es) = e ∷ es
advance (suc n) (e ∷ es) = advance (suc n - ev_len e) es

-- What the loop over the buffer comes to: its end, a further read() whose result is not given, or the
-- end of the fuel.
pub data Progress : Type 0 where
  finished waiting stuck : Progress

module _ {K : Type 0} where
  abbrev pub count_read : M K (Unit {0})
  count_read = modify (λ w. record w { inotify_read_cnt = w.inotify_read_cnt + 1 })

-- A read() to come, by the count that it is asked for
abbrev pub Read : Type 0
Read = ℕ → ReadResult (List Event)

-- The variables of the loop: the events from `evp` on, the bytes from `evp` to the end of the data,
-- `firstTry`, and the further reads, in their order.
pub record Buffer : Type 0 where
  pub events : List Event
  pub left : ℕ
  pub first_try : Bool
  pub reads : List Read

-- After a `processNextInotifyEvent` that consumed `n` bytes
abbrev pub consumed : ℕ → Buffer → Buffer
consumed n b = record b { events = advance n b.events; left = b.left - n; first_try = true }

abbrev pub extended : List Event → Buffer → Buffer
extended es b = record b { events = b.events ++ es; left = b.left + bytes es; first_try = false }

-- At EINTR `nr` is -1; the test `errno != -1` holds all the same, and -1 is added to `numRead`.
abbrev pub interrupted : Buffer → Buffer
interrupted b = record b { left = b.left - 1; first_try = false }

-- The buffer after a further read(), which asks for what room is left
module _ {K : Type 0} where
  unfoldable pub read_result : Buffer → ReadResult (List Event) → M K (Option Buffer)
  read_result b (got es) w = (count_read >> pure (some (extended es b))) w
  read_result b eintr w = (count_read >> pure (some (interrupted b))) w
  read_result b eof w = exit exit_failure w
  read_result b read_error w = exit exit_failure w

  -- For an IN_MOVED_FROM at the end of the data; `none` where the read() is not given
  unfoldable pub read_more : Buffer → List Read → M K (Option Buffer)
  unfolding read_result
  read_more b [] w = pure none w
  read_more b (r ∷ rs) w =
      read_result (record b { reads = rs }) (r (inotify_read_buf_len - b.left)) w

-- A buffer of `INOTIFY_READ_BUF_LEN` bytes holds 1700 events at most; each takes two rounds at most,
-- and a further read() may fill the buffer again.
abbrev pub loop_fuel : List Read → ℕ
loop_fuel rs = 3402 * (length rs + 1)

module _ (k : Kernel) where
  open k use {State}

  -- The body of the loop, by what `processNextInotifyEvent` returned; -1 is `none`
  unfoldable pub next_buffer : Buffer → Option ℕ → M State (Option Buffer)
  unfolding advance read_more
  next_buffer b (some n) w = pure (some (consumed n b)) w
  next_buffer b none w = read_more b b.reads w

  unfoldable pub loop_body : Buffer → List Event → M State (Option Buffer)
  unfolding next_buffer process_next_inotify_event
  loop_body b [] w = fault w
  loop_body b (ev ∷ rest) w =
      (process_next_inotify_event k ev rest b.left b.first_try >>= next_buffer b) w

  -- The rest of the loop, if there is a buffer to go on with
  abbrev pub on_buffer : (Buffer → M State Progress) → Option Buffer → M State Progress
  on_buffer loop none w = pure waiting w
  on_buffer loop (some b) w = loop b w

  unfoldable pub events_loop : ℕ → Buffer → M State Progress
  unfolding loop_body
  events_loop zero b w = pure stuck w
  events_loop (suc fuel) b w =
      let round = loop_body b b.events >>= on_buffer (events_loop fuel) in
      if ltb 0 b.left then round w else pure finished w

  -- The count that is asked of the first read(); `buf` has `INOTIFY_READ_BUF_LEN` bytes.
  abbrev pub read_count : Watcher State → ℕ
  read_count w = if ltb 0 w.read_buffer_size then w.read_buffer_size else inotify_read_buf_len

  -- By what the first read() returned; more bytes than `buf` holds would be written behind it
  unfoldable pub process_read : ReadResult (List Event) → List Read → M State Progress
  unfolding events_loop
  process_read (got es) rs w =
      if ltb inotify_read_buf_len (bytes es)
      then fault w
      else (count_read
            >> events_loop (loop_fuel rs)
                (record { events = es; left = bytes es; first_try = true; reads = rs }))
          w
  process_read eof rs w = exit exit_failure w
  process_read eintr rs w = exit exit_failure w
  process_read read_error rs w = exit exit_failure w

  unfoldable pub process_inotify_events : Read → List Read → M State Progress
  unfolding process_read
  process_inotify_events read rs w = process_read (read (read_count w)) rs w
