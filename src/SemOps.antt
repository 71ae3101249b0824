-- ===== src/SemOps.antt =====
-- svsem/svsem_op.c, `parseOps`: operations on semaphores out of the command line, with the strtol() of the
-- C library.
pub mod Specs
pub mod Text
use the_linux_programming_in.Prelude.{
  ℕ, zero, suc, ◌+◌, ◌-◌, ◌*◌, ◌%◌, ◌^◌, ◌≡◌, Bool, true, false, not, ◌&&◌, ◌||◌, Option, none,
  some, List, [], ◌∷◌, ltb, leb, ◌==◌, if◌then◌else◌, ℤ, pos, negsuc,
}
use the_linux_programming_in.CString.{char_at, cut}

-- `struct sembuf`, with the bits IPC_NOWAIT and SEM_UNDO of its flags
pub record Sembuf : Type 0 where
  pub sem_num : ℕ
  pub sem_op : ℤ
  pub ipc_nowait : Bool
  pub sem_undo : Bool

abbrev pub max_semops : ℕ
max_semops = 1000

-- isdigit()
abbrev pub is_digit : ℕ → Bool
is_digit c = leb b'0' c && leb c b'9'

abbrev pub long_max : ℕ
long_max = 2 ^ 63 - 1

-- The digits that strtol() reads, and the text behind them
unfoldable pub digits : ℕ → List ℕ → ℕ × List ℕ
digits n [] = (n, [])
digits n (c ∷ cs) =
    let rest = digits (10 * n + (c - b'0')) cs in if is_digit c then rest else (n, c ∷ cs)

abbrev pub clamped : ℕ → ℕ
clamped n = if ltb long_max n then long_max else n

-- A long that is assigned to an unsigned short or to a short
unfoldable pub to_ushort : ℕ → ℕ
to_ushort n = clamped n % 2 ^ 16

unfoldable pub to_short : ℕ → ℤ
to_short n = let m = clamped n % 2 ^ 16 in if ltb m (2 ^ 15) then pos m else negsuc (2 ^ 16 - 1 - m)

-- `- sem_op`, on a short
unfoldable pub negated : ℤ → ℤ
negated (pos zero) = pos zero
negated (pos (suc n)) = negsuc n
negated (negsuc n) = if n == 2 ^ 15 - 1 then negsuc n else pos (suc n)

abbrev pub is_zero : ℤ → Bool
is_zero (pos n) = n == 0
is_zero (negsuc n) = false

-- `strchr("+-=", *sign) != NULL`, where `*sign` is not the null
abbrev pub is_sign : ℕ → Bool
is_sign c = c == b'+' || (c == b'-' || c == b'=')

-- The sign, and its check for `=0`; `none` is an exit of the program.
unfoldable pub signed : ℕ → ℤ → Option ℤ
unfolding negated
signed sign op =
    if sign == b'-'
    then some (negated op)
    else if sign == b'='
    then (if is_zero op then some op else none)
    else some op

-- The loop over the flags, and the text behind them
unfoldable pub read_flags : Sembuf → List ℕ → Sembuf × List ℕ
read_flags s [] = (s, [])
read_flags s (c ∷ cs) =
    let nowait = read_flags (record s { ipc_nowait = true }) cs in
    let undo = read_flags (record s { sem_undo = true }) cs in
    if c == b'n' then nowait else if c == b'u' then undo else (s, c ∷ cs)

-- `if (*flags != ',' && *flags != '\0')`
abbrev pub checked_end : Sembuf × List ℕ → Option Sembuf
checked_end (s, rest) = if char_at rest 0 == b',' || char_at rest 0 == 0 then some s else none

-- From the sign on, whose operation is made of the digits
abbrev pub finish_op : ℕ → List ℕ → Option ℤ → Option Sembuf
unfolding read_flags char_at
finish_op num flags none = none
finish_op num flags (some op) =
    checked_end (
      read_flags (record { sem_num = num; sem_op = op; ipc_nowait = false; sem_undo = false })
        flags)

-- Behind the number of the semaphore
unfoldable pub parse_signed : ℕ → List ℕ → Option Sembuf
unfolding char_at digits to_short signed read_flags
parse_signed num [] = none
parse_signed num (sign ∷ cs) =
    let r = digits 0 cs in
    if not (is_sign sign)
    then none
    else if not (is_digit (char_at cs 0))
    then none
    else finish_op num r.1 (signed sign (to_short r.0))

-- One operation, at the beginning of `remaining`
unfoldable pub parse_op : List ℕ → Option Sembuf
unfolding char_at digits to_ushort parse_signed
parse_op remaining =
    let r = digits 0 remaining in
    if is_digit (char_at remaining 0) then parse_signed (to_ushort r.0) r.1 else none

abbrev pub prepend : Sembuf → Option (List Sembuf) → Option (List Sembuf)
prepend s none = none
prepend s (some ss) = some (s ∷ ss)

-- What follows an operation: the rest behind the next comma, if there is one
abbrev pub go_on :
    (List ℕ → Option (List Sembuf)) → Option Sembuf → Option (List ℕ) → Option (List Sembuf)
go_on rest none after = none
go_on rest (some s) none = some (s ∷ [])
go_on rest (some s) (some remaining) = prepend s (rest remaining)

-- The loop, with how many operations may still come; the number of the result is its length.
unfoldable pub parse_from : ℕ → List ℕ → Option (List Sembuf)
unfolding parse_op cut
parse_from zero remaining = none
parse_from (suc left) remaining =
    go_on (parse_from left) (parse_op remaining) (cut b',' remaining).1

unfoldable pub parse_ops : List ℕ → Option (List Sembuf)
unfolding parse_from
parse_ops arg = parse_from max_semops arg
