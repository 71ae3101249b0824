-- ===== src/SemOps/Text.antt =====
-- The operations that `parseOps` of svsem/svsem_op.c makes of a text.
use the_linux_programming_in.Prelude.{
  ℕ, zero, suc, ◌+◌, ◌-◌, ◌*◌, ◌<◌, ◌≡◌, refl, sym, ap, ◌∙◌, true, false, some, List, [], ◌∷◌, ◌++◌,
  length, arith, ◌==◌, ℤ,
}
use mathlib.Core.List.{map, append_assoc, append-nil}
use the_linux_programming_in.CString.{char_at, Lacks, cut_found, cut_missing, Lacks-append}
use the_linux_programming_in.SemOps.{
  Sembuf, max_semops, is_digit, digits, to_ushort, to_short, is_zero, is_sign, signed, read_flags,
  checked_end, parse_signed, parse_op, parse_from, parse_ops,
}
use the_linux_programming_in.SemOps.Specs.{
  Sign, plus, minus, equals, Flag, with_n, with_u, Spec, sign_char, flag_text, op_text, ops_text,
  number, op_of, with_flags, meaning, Digits, IsSpec, AllSpecs,
}

digits_lem :
    (n : ℕ) (ds rest : List ℕ)
    → Digits ds
    → is_digit (char_at rest 0) ≡ false
    → digits n (ds ++ rest) ≡ (number n ds, rest)
unfolding digits char_at
digits_lem n [] [] h k = refl
digits_lem n [] (c ∷ rest) h k = ground (arith, k)
digits_lem n (d ∷ ds) rest h k = rw h.0 (digits_lem (10 * n + (d - b'0')) ds rest h.1 k)

-- What may follow an operation
abbrev Ends : List ℕ → Type 0
Ends [] = Unit
Ends (c ∷ cs) = c ≡ b','

flags_lem :
    (b : Sembuf) (fs : List Flag) (rest : List ℕ)
    → Ends rest
    → read_flags b (flag_text fs ++ rest) ≡ (with_flags b fs, rest)
unfolding read_flags
flags_lem b [] [] h = refl
flags_lem b [] (c ∷ cs) h = rw h refl
flags_lem b (with_n ∷ fs) rest h = flags_lem (record b { ipc_nowait = true }) fs rest h
flags_lem b (with_u ∷ fs) rest h = flags_lem (record b { sem_undo = true }) fs rest h

no_digit_after :
    (fs : List Flag) (rest : List ℕ)
    → Ends rest
    → is_digit (char_at (flag_text fs ++ rest) 0) ≡ false
unfolding char_at
no_digit_after [] [] h = refl
no_digit_after [] (c ∷ cs) h = rw h refl
no_digit_after (with_n ∷ fs) rest h = refl
no_digit_after (with_u ∷ fs) rest h = refl

digit_first :
    (ds rest : List ℕ) → Digits ds → 0 < length ds → is_digit (char_at (ds ++ rest) 0) ≡ true
unfolding char_at
digit_first [] rest h p = absurd (omega (arith, p))
digit_first (d ∷ ds) rest h p = h.0

signed_lem :
    (g : Sign) (v : ℤ) → (g ≡ equals → is_zero v ≡ true) → signed (sign_char g) v ≡ some (op_of g v)
unfolding signed
signed_lem plus v h = refl
signed_lem minus v h = refl
signed_lem equals v h = rw (h refl) refl

end_lem : (b : Sembuf) (rest : List ℕ) → Ends rest → checked_end (b, rest) ≡ some b
unfolding char_at
end_lem b [] h = refl
end_lem b (c ∷ cs) h = rw h refl

sign_lem : (g : Sign) → (is_sign (sign_char g) ≡ true) × (is_digit (sign_char g) ≡ false)
sign_lem plus = (refl, refl)
sign_lem minus = (refl, refl)
sign_lem equals = (refl, refl)

parse_signed_lem :
    (num : ℕ) (s : Spec) (rest : List ℕ)
    → IsSpec s
    → Ends rest
    → parse_signed num (sign_char s.sign ∷ (s.amount ++ (flag_text s.flags ++ rest)))
      ≡ some (
          with_flags
            (record {
              sem_num = num;
              sem_op = op_of s.sign (to_short (number 0 s.amount));
              ipc_nowait = false;
              sem_undo = false;
            })
            s.flags)
unfolding parse_signed
parse_signed_lem num s rest h e =
    rw
      (
        (sign_lem s.sign).0,
        digit_first s.amount (flag_text s.flags ++ rest) h.amount_digits h.amount_some,
        digits_lem 0 s.amount (flag_text s.flags ++ rest) h.amount_digits
            (no_digit_after s.flags rest e),
        signed_lem s.sign (to_short (number 0 s.amount)) h.zero_if_equals,
        flags_lem
            (record {
              sem_num = num;
              sem_op = op_of s.sign (to_short (number 0 s.amount));
              ipc_nowait = false;
              sem_undo = false;
            })
            s.flags rest e,
      )
      (end_lem _ rest e)

op_text-append :
    (s : Spec) (rest : List ℕ)
    → op_text s ++ rest ≡ s.num ++ sign_char s.sign ∷ (s.amount ++ (flag_text s.flags ++ rest))
op_text-append s rest = simp (append_assoc)

parse_op_lem :
    (s : Spec) (rest : List ℕ)
    → IsSpec s
    → Ends rest
    → parse_op (op_text s ++ rest) ≡ some (meaning s)
unfolding parse_op
parse_op_lem s rest h e =
    let tail = sign_char s.sign ∷ (s.amount ++ (flag_text s.flags ++ rest)) in
    rw
      (
        op_text-append s rest,
        digit_first s.num tail h.num_digits h.num_some,
        digits_lem 0 s.num tail h.num_digits (sign_lem s.sign).1,
      )
      (parse_signed_lem (to_ushort (number 0 s.num)) s rest h e)

Digits-Lacks : (ds : List ℕ) → Digits ds → Lacks b',' ds
Digits-Lacks [] h = tt
Digits-Lacks (d ∷ ds) h = (ground (arith, h.0), Digits-Lacks ds h.1)

flag_text-Lacks : (fs : List Flag) → Lacks b',' (flag_text fs)
flag_text-Lacks [] = tt
flag_text-Lacks (with_n ∷ fs) = (refl, flag_text-Lacks fs)
flag_text-Lacks (with_u ∷ fs) = (refl, flag_text-Lacks fs)

sign_no_comma : (g : Sign) → (sign_char g == b',') ≡ false
sign_no_comma plus = refl
sign_no_comma minus = refl
sign_no_comma equals = refl

op_text-Lacks : (s : Spec) → IsSpec s → Lacks b',' (op_text s)
op_text-Lacks s h =
    Lacks-append b',' s.num (sign_char s.sign ∷ (s.amount ++ flag_text s.flags))
      (Digits-Lacks s.num h.num_digits)
      (
        sign_no_comma s.sign,
        Lacks-append b',' s.amount (flag_text s.flags) (Digits-Lacks s.amount h.amount_digits)
            (flag_text-Lacks s.flags),
      )

parse_from_lem :
    (left : ℕ) (s : Spec) (ss : List Spec)
    → IsSpec s
    → AllSpecs ss
    → length ss < left
    → parse_from left (ops_text s ss) ≡ some (meaning s ∷ map meaning ss)
unfolding parse_from
parse_from_lem zero s ss h hs l = absurd (omega (arith, l))
parse_from_lem (suc left) s [] h hs l =
    let alone : parse_op (op_text s) ≡ some (meaning s) =
      ap parse_op (sym (append-nil (op_text s))) ∙ parse_op_lem s [] h tt in
    rw (alone, cut_missing b',' (op_text s) (op_text-Lacks s h)) refl
parse_from_lem (suc left) s (t ∷ ts) h hs l =
    rw
      (
        parse_op_lem s (b',' ∷ ops_text t ts) h refl,
        cut_found b',' (op_text s) (ops_text t ts) (op_text-Lacks s h),
        parse_from_lem left t ts hs.0 hs.1 (omega (arith, l)),
      )
      refl

-- What `parseOps` makes of a text of at most 1000 operations, joined by commas, is these operations: the
-- numbers as they fit an unsigned short and a short, negated behind a minus sign, and the flags that are
-- named. Behind an equals sign the number has to be 0, as far as it fits.
pub parse_ops_lem :
    (s : Spec) (ss : List Spec)
    → IsSpec s
    → AllSpecs ss
    → length ss < max_semops
    → parse_ops (ops_text s ss) ≡ some (meaning s ∷ map meaning ss)
unfolding parse_ops
parse_ops_lem s ss h hs l = parse_from_lem max_semops s ss h hs l
