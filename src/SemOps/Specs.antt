-- ===== src/SemOps/Specs.antt =====
-- The text of operations for svsem/svsem_op.c, and what it means.
use the_linux_programming_in.Prelude.{
  ℕ, ◌+◌, ◌-◌, ◌*◌, ◌<◌, ◌≡◌, true, false, List, [], ◌∷◌, ◌++◌, length, ℤ,
}
use the_linux_programming_in.SemOps.{Sembuf, is_digit, to_ushort, to_short, negated, is_zero}

pub data Sign : Type 0 where
  plus minus equals : Sign

pub data Flag : Type 0 where
  with_n with_u : Flag

-- An operation as it is written, with the digits of its two numbers
pub record Spec : Type 0 where
  pub num : List ℕ
  pub sign : Sign
  pub amount : List ℕ
  pub flags : List Flag

abbrev pub sign_char : Sign → ℕ
sign_char plus = b'+'
sign_char minus = b'-'
sign_char equals = b'='

abbrev pub flag_text : List Flag → List ℕ
flag_text [] = []
flag_text (with_n ∷ fs) = b'n' ∷ flag_text fs
flag_text (with_u ∷ fs) = b'u' ∷ flag_text fs

abbrev pub op_text : Spec → List ℕ
op_text s = s.num ++ sign_char s.sign ∷ (s.amount ++ flag_text s.flags)

abbrev pub ops_text : Spec → List Spec → List ℕ
ops_text s [] = op_text s
ops_text s (t ∷ ts) = op_text s ++ b',' ∷ ops_text t ts

-- The number that digits stand for
abbrev pub number : ℕ → List ℕ → ℕ
number n [] = n
number n (c ∷ cs) = number (10 * n + (c - b'0')) cs

abbrev pub op_of : Sign → ℤ → ℤ
unfolding negated
op_of plus v = v
op_of minus v = negated v
op_of equals v = v

abbrev pub with_flags : Sembuf → List Flag → Sembuf
with_flags b [] = b
with_flags b (with_n ∷ fs) = with_flags (record b { ipc_nowait = true }) fs
with_flags b (with_u ∷ fs) = with_flags (record b { sem_undo = true }) fs

abbrev pub meaning : Spec → Sembuf
unfolding to_short to_ushort
meaning s =
    with_flags
      (record {
        sem_num = to_ushort (number 0 s.num);
        sem_op = op_of s.sign (to_short (number 0 s.amount));
        ipc_nowait = false;
        sem_undo = false;
      })
      s.flags

abbrev pub Digits : List ℕ → Type 0
Digits [] = Unit
Digits (c ∷ cs) = (is_digit c ≡ true) × Digits cs

-- Numbers of at least a digit; behind `=` the number that fits a short is 0.
pub record IsSpec (s : Spec) : Type 0 where
  pub num_digits : Digits s.num
  pub num_some : 0 < length s.num
  pub amount_digits : Digits s.amount
  pub amount_some : 0 < length s.amount
  pub zero_if_equals : (s.sign ≡ equals) → is_zero (to_short (number 0 s.amount)) ≡ true

abbrev pub AllSpecs : List Spec → Type 0
AllSpecs [] = Unit
AllSpecs (s ∷ ss) = IsSpec s × AllSpecs ss
