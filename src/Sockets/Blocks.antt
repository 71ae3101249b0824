-- ===== src/Sockets/Blocks.antt =====
-- sockets/rdwrn.c, `readn` and `writen`: whole blocks out of partial transfers.
use the_linux_programming_in.Prelude.{
  take-append-drop, ℕ, zero, suc, ◌-◌, ◌≤◌, ◌<◌, ◌≡◌, refl, sym, ap, ◌∙◌, ◌⊎◌, List, [], ◌∷◌, ◌++◌,
  take, drop, length, arith,
}
use mathlib.Core.Path.{subst}
use mathlib.Core.List.{append_assoc, append-nil}
use the_linux_programming_in.Syscall.{
  ReadResult, got, eof, eintr, read_error, WriteResult, wrote, write_eintr, write_error,
}

-- A read() to come, by the count that it is asked for
abbrev pub Read : Type 0
Read = ℕ → ReadResult (List ℕ)

-- A write() to come, by the bytes that it is given
abbrev pub Write : Type 0
Write = List ℕ → WriteResult

-- The bytes that were transferred (their number is the result), -1, or a wait for a call that is not
-- given.
pub data Block : Type 0 where
  done : List ℕ → Block
  failed : Block
  waiting : Block

-- One round of `readn`, with the rest of its loop as `again`, by the bytes that are still wanted and
-- those that are read; zero bytes are the end of the file.
unfoldable pub on_read : (ℕ → List ℕ → Block) → ℕ → List ℕ → ReadResult (List ℕ) → Block
on_read again left buf eof = done buf
on_read again left buf eintr = again left buf
on_read again left buf read_error = failed
on_read again left buf (got []) = done buf
on_read again left buf (got (b ∷ bs)) = again (left - length (b ∷ bs)) (buf ++ b ∷ bs)

unfoldable pub readn_loop : List Read → ℕ → List ℕ → Block
unfolding on_read
readn_loop rs zero buf = done buf
readn_loop [] (suc left) buf = waiting
readn_loop (r ∷ rs) (suc left) buf = on_read (readn_loop rs) (suc left) buf (r (suc left))

unfoldable pub readn : List Read → ℕ → Block
unfolding readn_loop
readn rs n = readn_loop rs n []

-- One round of `writen`; `sent` are the bytes that have gone out. A count of 0 is an error.
unfoldable pub on_write : (List ℕ → List ℕ → Block) → List ℕ → List ℕ → WriteResult → Block
on_write again rest sent (wrote zero) = failed
on_write again rest sent (wrote (suc k)) = again (drop (suc k) rest) (sent ++ take (suc k) rest)
on_write again rest sent write_eintr = again rest sent
on_write again rest sent write_error = failed

unfoldable pub writen_loop : List Write → List ℕ → List ℕ → Block
unfolding on_write
writen_loop ws [] sent = done sent
writen_loop [] (b ∷ rest) sent = waiting
writen_loop (w ∷ ws) (b ∷ rest) sent = on_write (writen_loop ws) (b ∷ rest) sent (w (b ∷ rest))

unfoldable pub writen : List Write → List ℕ → Block
unfolding writen_loop
writen ws buffer = writen_loop ws buffer []

-- read(2): at most as many bytes as asked for
pub record IsFineRead (r : Read) : Type 0 where
  pub fits : (n : ℕ) (bs : List ℕ) → r n ≡ got bs → length bs ≤ n

abbrev pub AllFine : List Read → Type 0
AllFine [] = Unit
AllFine (r ∷ rs) = IsFineRead r × AllFine rs

-- Some read() of the list may meet the end of the file.
abbrev pub IsEnd : ReadResult (List ℕ) → Type 0
IsEnd eof = Unit
IsEnd (got []) = Unit
IsEnd r = ⊥

abbrev pub MeetsEnd : List Read → Type 0
MeetsEnd [] = ⊥
MeetsEnd (r ∷ rs) = ((n : ℕ) × IsEnd (r n)) ⊎ MeetsEnd rs

-- All the bytes that were asked for, or fewer before the end of the file
abbrev pub IsWhole : ℕ → List Read → Block → Type 0
IsWhole n rs (done bs) = (length bs ≡ n) ⊎ ((length bs < n) × MeetsEnd rs)
IsWhole n rs failed = Unit
IsWhole n rs waiting = Unit

-- If `writen` does not fail, the bytes that went out are the block.
abbrev pub IsSent : List ℕ → Block → Type 0
IsSent buffer (done sent) = sent ≡ buffer
IsSent buffer failed = Unit
IsSent buffer waiting = Unit

on_write-IsSent :
    (buffer rest sent : List ℕ) (ws : List Write) (o : WriteResult)
    → ((r s : List ℕ) → s ++ r ≡ buffer → IsSent buffer (writen_loop ws r s))
    → sent ++ rest ≡ buffer
    → IsSent buffer (on_write (writen_loop ws) rest sent o)
unfolding on_write
on_write-IsSent buffer rest sent ws (wrote zero) ih e = tt
on_write-IsSent buffer rest sent ws (wrote (suc k)) ih e = ih _ _ (
    append_assoc sent (take (suc k) rest) (drop (suc k) rest)
    ∙ ap (λ t. sent ++ t) (take-append-drop (suc k) rest)
    ∙ e)
on_write-IsSent buffer rest sent ws write_eintr ih e = ih rest sent e
on_write-IsSent buffer rest sent ws write_error ih e = tt

writen_loop-IsSent :
    (buffer : List ℕ) (ws : List Write) (rest sent : List ℕ)
    → sent ++ rest ≡ buffer
    → IsSent buffer (writen_loop ws rest sent)
unfolding writen_loop
writen_loop-IsSent buffer ws [] sent e = sym (append-nil sent) ∙ e
writen_loop-IsSent buffer [] (b ∷ rest) sent e = tt
writen_loop-IsSent buffer (w ∷ ws) (b ∷ rest) sent e =
    on_write-IsSent buffer (b ∷ rest) sent ws _ (λ r s e'. writen_loop-IsSent buffer ws r s e') e

-- However write() cuts the block and is interrupted: if `writen` returns a count, exactly the bytes of
-- the block have gone out, in their order.
pub writen-IsSent : (ws : List Write) (buffer : List ℕ) → IsSent buffer (writen ws buffer)
unfolding writen
writen-IsSent ws buffer = writen_loop-IsSent buffer ws buffer [] refl

-- Each write() takes at least one byte.
abbrev pub Progresses : List Write → Type 0
Progresses [] = Unit
Progresses (w ∷ ws) = ((r : List ℕ) → (k : ℕ) × (w r ≡ wrote (suc k))) × Progresses ws

length-drop-suc : (k : ℕ) (b : ℕ) (rest : List ℕ) → length (drop (suc k) (b ∷ rest)) ≤ length rest
length-drop-suc zero b rest = omega arith
length-drop-suc (suc k) b [] = omega arith
length-drop-suc (suc k) b (x ∷ rest) = omega (arith, length-drop-suc k x rest)

writen_loop-done :
    (ws : List Write) (rest sent : List ℕ)
    → Progresses ws
    → length rest ≤ length ws
    → (out : List ℕ) × (writen_loop ws rest sent ≡ done out)
unfolding writen_loop on_write
writen_loop-done ws [] sent p l = (sent, refl)
writen_loop-done [] (b ∷ rest) sent p l = absurd (omega arith)
writen_loop-done (w ∷ ws) (b ∷ rest) sent p l =
    let (k, e) = p.0 (b ∷ rest) in
    let (out, q) =
      writen_loop-done ws (drop (suc k) (b ∷ rest)) (sent ++ take (suc k) (b ∷ rest)) p.1
        (omega (arith, length-drop-suc k b rest)) in
    (out, ap (on_write (writen_loop ws) (b ∷ rest) sent) e ∙ q)

-- As many calls as the block has bytes, each of which takes some, are enough for `writen` to send all.
pub writen_total :
    (ws : List Write) (buffer : List ℕ)
    → Progresses ws
    → length buffer ≤ length ws
    → writen ws buffer ≡ done buffer
unfolding writen
writen_total ws buffer p l =
    let (out, e) = writen_loop-done ws buffer [] p l in
    e ∙ ap done (subst (IsSent buffer) e (writen_loop-IsSent buffer ws buffer [] refl))
