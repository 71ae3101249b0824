-- ===== src/GetNum.antt =====
-- lib/get_num.c: numeric arguments of the command line. The messages that `gnFail` prints are told apart
-- as reasons; strtol() is a parameter.
use the_linux_programming_in.Prelude.{
  zero, suc, ◌+◌, ◌≤◌, inl, inr, Bool-cases, sym, ℕ, ◌-◌, ◌^◌, ◌≡◌, ◌↔◌, refl, Bool, true, false,
  ◌&&◌, Option, none, some, List, [], ◌∷◌, arith, leb, if◌then◌else◌, ℤ, pos, negsuc, is_negative,
  is_nonpositive,
}
use mathlib.Core.Path.{subst}

-- The bits of `flags`
pub record Flags : Type 0 where
  pub nonneg : Bool
  pub gt_0 : Bool
  pub any_base : Bool
  pub base_8 : Bool
  pub base_16 : Bool

-- What strtol() gives: its value, whether `errno` was set, and the text from `endptr` on
pub record Converted : Type 0 where
  pub value : ℤ
  pub errno_set : Bool
  pub rest : List ℕ

pub data Reason : Type 0 where
  null_or_empty strtol_failed nonnumeric negative not_positive out_of_range : Reason

-- `gnFail` ends the program.
pub data Num : Type 0 where
  number : ℤ → Num
  gn_fail : Reason → Num

unfoldable pub base_of : Flags → ℕ
base_of flags =
    if flags.any_base then 0 else if flags.base_8 then 8 else if flags.base_16 then 16 else 10

-- The tests on the value
unfoldable pub check_value : Flags → ℤ → Num
check_value flags res =
    if flags.nonneg && is_negative res
    then gn_fail negative
    else if flags.gt_0 && is_nonpositive res
    then gn_fail not_positive
    else number res

-- `*endptr != '\0'`
abbrev pub is_end : List ℕ → Bool
is_end [] = true
is_end (c ∷ cs) = false

unfoldable pub check_converted : Flags → Converted → Num
unfolding check_value
check_converted flags r =
    if r.errno_set
    then gn_fail strtol_failed
    else if is_end r.rest
    then check_value flags r.value
    else gn_fail nonnumeric

abbrev pub int_max : ℕ
int_max = 2 ^ 31 - 1

-- `res <= INT_MAX && res >= INT_MIN`
abbrev pub is_int : ℤ → Bool
is_int (pos n) = leb n int_max
is_int (negsuc n) = leb n int_max

unfoldable pub check_int : Num → Num
check_int (number res) = if is_int res then number res else gn_fail out_of_range
check_int (gn_fail r) = gn_fail r

module _ (strtol : List ℕ → ℕ → Converted) where
  unfoldable pub get_num : Option (List ℕ) → Flags → Num
  unfolding check_converted base_of
  get_num none flags = gn_fail null_or_empty
  get_num (some []) flags = gn_fail null_or_empty
  get_num (some (c ∷ cs)) flags = check_converted flags (strtol (c ∷ cs) (base_of flags))

  unfoldable pub get_long : Option (List ℕ) → Flags → Num
  unfolding get_num
  get_long arg flags = get_num arg flags

  unfoldable pub get_int : Option (List ℕ) → Flags → Num
  unfolding get_num check_int
  get_int arg flags = check_int (get_num arg flags)

-- The base that the flags ask for, where an earlier line goes before a later one
pub data IsBase (flags : Flags) : ℕ → Type 0 where
  as_strtol : flags.any_base ≡ true → IsBase flags 0
  octal : flags.any_base ≡ false → flags.base_8 ≡ true → IsBase flags 8
  hexadecimal :
      flags.any_base ≡ false → flags.base_8 ≡ false → flags.base_16 ≡ true → IsBase flags 16
  decimal : flags.any_base ≡ false → flags.base_8 ≡ false → flags.base_16 ≡ false → IsBase flags 10

-- The text is not empty; all of it is the number `v`, in the base of the flags; `v` is not negative, or
-- not below 1, as the flags ask for.
pub record Accepts (strtol : List ℕ → ℕ → Converted) (arg : Option (List ℕ)) (flags : Flags) (v : ℤ)
    : Type 0 where
  pub text :
      (c : ℕ) × (cs : List ℕ) × (base : ℕ) × (arg ≡ some (c ∷ cs))
      × IsBase flags base
      × (strtol (c ∷ cs) base ≡ record { value = v; errno_set = false; rest = [] })
  pub not_negative : flags.nonneg ≡ true → (n : ℕ) × (v ≡ pos n)
  pub positive : flags.gt_0 ≡ true → (n : ℕ) × (v ≡ pos (suc n))

-- From -2147483648 to 2147483647
abbrev pub FitsInt : ℤ → Type 0
FitsInt (pos n) = n ≤ 2147483647
FitsInt (negsuc n) = n + 1 ≤ 2147483648

base_of-IsBase : (flags : Flags) → IsBase flags (base_of flags)
unfolding base_of
base_of-IsBase flags = elim (Bool-cases flags.any_base) [
  | inl a ↦ let e : base_of flags ≡ 0 = rw a refl in subst (IsBase flags) (sym e) (as_strtol a)
  | inr a ↦ elim (Bool-cases flags.base_8) [
    | inl b ↦ let e : base_of flags ≡ 8 = rw (a, b) refl in subst (IsBase flags) (sym e) (octal a b)
    | inr b ↦ elim (Bool-cases flags.base_16) [
      | inl c ↦
          let e : base_of flags ≡ 16 = rw (a, b, c) refl in
          subst (IsBase flags) (sym e) (hexadecimal a b c)
      | inr c ↦
          let e : base_of flags ≡ 10 = rw (a, b, c) refl in
          subst (IsBase flags) (sym e) (decimal a b c)
    ]
  ]
]

IsBase-base_of : (flags : Flags) (base : ℕ) → IsBase flags base → base_of flags ≡ base
unfolding base_of
IsBase-base_of flags base (as_strtol a) = rw a refl
IsBase-base_of flags base (octal a b) = rw (a, b) refl
IsBase-base_of flags base (hexadecimal a b c) = rw (a, b, c) refl
IsBase-base_of flags base (decimal a b c) = rw (a, b, c) refl

not_negative_lem :
    (b : Bool) (v : ℤ) → ((b && is_negative v) ≡ false) ↔ (b ≡ true → (n : ℕ) × (v ≡ pos n))
not_negative_lem false v = (λ h e. absurd (ground (arith, e)), λ h. refl)
not_negative_lem true (pos n) = (λ h e. (n, refl), λ h. refl)
not_negative_lem true (negsuc n) =
    (λ h e. absurd (ground (arith, h)), λ h. let (m, e) = h refl in absurd (ground (arith, e)))

positive_lem :
    (b : Bool) (v : ℤ)
    → ((b && is_nonpositive v) ≡ false) ↔ (b ≡ true → (n : ℕ) × (v ≡ pos (suc n)))
positive_lem false v = (λ h e. absurd (ground (arith, e)), λ h. refl)
positive_lem true (pos zero) =
    (λ h e. absurd (ground (arith, h)), λ h. let (m, e) = h refl in absurd (ground (arith, e)))
positive_lem true (pos (suc n)) = (λ h e. (n, refl), λ h. ground arith)
positive_lem true (negsuc n) =
    (λ h e. absurd (ground (arith, h)), λ h. let (m, e) = h refl in absurd (ground (arith, e)))

is_int-FitsInt : (v : ℤ) → (is_int v ≡ true) ↔ FitsInt v
is_int-FitsInt (pos n) = ground arith
is_int-FitsInt (negsuc n) = ground arith

check_converted_sound :
    (flags : Flags) (value : ℤ) (e : Bool) (rest : List ℕ) (v : ℤ)
    → check_converted flags (record { value = value; errno_set = e; rest = rest }) ≡ number v
    → (value ≡ v)
      × (e ≡ false)
      × (rest ≡ [])
      × ((flags.nonneg && is_negative v) ≡ false)
      × ((flags.gt_0 && is_nonpositive v) ≡ false)
unfolding check_converted check_value
check_converted_sound flags value e [] v h =
    let same : value ≡ v = ground arith in (same, ground arith, refl, ground arith, ground arith)
check_converted_sound flags value e (c ∷ cs) v h = ground arith

check_int_iff : (r : Num) (v : ℤ) → (check_int r ≡ number v) ↔ ((r ≡ number v) × (is_int v ≡ true))
unfolding check_int
check_int_iff (number u) v = ground arith
check_int_iff (gn_fail u) v = ground arith

module _ (strtol : List ℕ → ℕ → Converted) where
  get_long_sound :
      (arg : Option (List ℕ)) (flags : Flags) (v : ℤ)
      → get_long strtol arg flags ≡ number v
      → Accepts strtol arg flags v
  unfolding get_long get_num
  get_long_sound none flags v h = ground arith
  get_long_sound (some []) flags v h = ground arith
  get_long_sound (some (c ∷ cs)) flags v h =
      let r = strtol (c ∷ cs) (base_of flags) in
      let (same, e, end, nonneg, gt) = check_converted_sound flags r.value r.errno_set r.rest v h in
      record {
        text = (c, cs, base_of flags, refl, base_of-IsBase flags, cc);
        not_negative = (not_negative_lem flags.nonneg v).0 nonneg;
        positive = (positive_lem flags.gt_0 v).0 gt;
      }

  get_long_complete :
      (arg : Option (List ℕ)) (flags : Flags) (v : ℤ)
      → Accepts strtol arg flags v
      → get_long strtol arg flags ≡ number v
  unfolding get_long get_num check_converted check_value
  get_long_complete arg flags v a =
      let (c, cs, base, e, is_base, conv) = a.text in
      rw
        (
          e,
          IsBase-base_of flags base is_base,
          conv,
          (not_negative_lem flags.nonneg v).1 a.not_negative,
          (positive_lem flags.gt_0 v).1 a.positive,
        )
        refl

  -- `getLong` returns `v` exactly where the text is not empty, strtol() makes `v` of all of it in base 0,
  -- 8, 16 or 10, as the flags say in this order, and `v` is not negative under GN_NONNEG and at least 1
  -- under GN_GT_0.
  pub get_long_iff :
      (arg : Option (List ℕ)) (flags : Flags) (v : ℤ)
      → (get_long strtol arg flags ≡ number v) ↔ Accepts strtol arg flags v
  get_long_iff arg flags v = (get_long_sound arg flags v, get_long_complete arg flags v)

  -- `getInt` returns `v` exactly where the text is not empty, strtol() makes `v` of all of it in base 0, 8,
  -- 16 or 10, as the flags say in this order, `v` is as GN_NONNEG and GN_GT_0 ask, and `v` lies from
  -- -2147483648 to 2147483647.
  pub get_int_iff :
      (arg : Option (List ℕ)) (flags : Flags) (v : ℤ)
      → (get_int strtol arg flags ≡ number v) ↔ (Accepts strtol arg flags v × FitsInt v)
  unfolding get_int get_long
  get_int_iff arg flags v =
      let both = check_int_iff (get_num strtol arg flags) v in
      let fits = is_int-FitsInt v in
      (
        λ h. (get_long_sound arg flags v (both.0 h).0, fits.0 (both.0 h).1),
        λ (a, f). both.1 (get_long_complete arg flags v a, fits.1 f),
      )
