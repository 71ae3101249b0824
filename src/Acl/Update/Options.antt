-- ===== src/Acl/Update/Options.antt =====
-- The options of acl/acl_update.c, and the flags that `main` makes of them.
use the_linux_programming_in.Prelude.{
  inl, inr, ℕ, ◌≤◌, ◌≡◌, refl, sym, ap, ◌∙◌, Bool, true, false, Option, none, some, List, [], ◌∷◌,
  arith, if◌then◌else◌, Bool-cases,
}
use the_linux_programming_in.Acl.Update.{
  AclType, acl_type_access, acl_type_default, Opt, opt_m, opt_x, opt_v, opt_k, opt_d, opt_n,
  opt_bad, Flags, no_flags, set_flags, type_of,
}

-- The options of which there is to be exactly one: -m, -x, -k and -V
abbrev pub modes : List Opt → List Opt
modes [] = []
modes (opt_m s ∷ os) = opt_m s ∷ modes os
modes (opt_x s ∷ os) = opt_x s ∷ modes os
modes (opt_v s ∷ os) = opt_v s ∷ modes os
modes (opt_k ∷ os) = opt_k ∷ modes os
modes (opt_d ∷ os) = modes os
modes (opt_n ∷ os) = modes os
modes (opt_bad ∷ os) = modes os

-- The ACL that they are about: the default one if there is a -d
abbrev pub asked_type : List Opt → AclType
asked_type [] = acl_type_access
asked_type (opt_d ∷ os) = acl_type_default
asked_type (opt_m s ∷ os) = asked_type os
asked_type (opt_x s ∷ os) = asked_type os
asked_type (opt_v s ∷ os) = asked_type os
asked_type (opt_k ∷ os) = asked_type os
asked_type (opt_n ∷ os) = asked_type os
asked_type (opt_bad ∷ os) = asked_type os

-- No option is a bad one.
abbrev pub AllGood : List Opt → Type 0
AllGood [] = Unit
AllGood (opt_bad ∷ os) = ⊥
AllGood (opt_d ∷ os) = AllGood os
AllGood (opt_m s ∷ os) = AllGood os
AllGood (opt_x s ∷ os) = AllGood os
AllGood (opt_v s ∷ os) = AllGood os
AllGood (opt_k ∷ os) = AllGood os
AllGood (opt_n ∷ os) = AllGood os

set_flags-AllGood : (os : List Opt) (f g : Flags) → set_flags os f ≡ some g → AllGood os
unfolding set_flags
set_flags-AllGood [] f g e = tt
set_flags-AllGood (opt_bad ∷ os) f g e = absurd (ground (arith, e))
set_flags-AllGood (opt_d ∷ os) f g e = set_flags-AllGood os _ g e
set_flags-AllGood (opt_m s ∷ os) f g e = set_flags-AllGood os _ g e
set_flags-AllGood (opt_x s ∷ os) f g e = set_flags-AllGood os _ g e
set_flags-AllGood (opt_v s ∷ os) f g e = set_flags-AllGood os _ g e
set_flags-AllGood (opt_k ∷ os) f g e = set_flags-AllGood os _ g e
set_flags-AllGood (opt_n ∷ os) f g e = set_flags-AllGood os _ g e

abbrev flags_or : Flags → Option Flags → Flags
flags_or f none = f
flags_or f (some g) = g

same_flags : (f g : Flags) → some f ≡ some g → f ≡ g
same_flags f g e = ap (flags_or f) e

abbrev type_with : Bool → List Opt → AclType
type_with d os = if d then acl_type_default else asked_type os

set_flags-type :
    (os : List Opt) (f g : Flags)
    → set_flags os f ≡ some g
    → type_of g ≡ type_with f.use_default_acl os
unfolding set_flags
set_flags-type [] f g e = ap type_of (sym (same_flags f g e))
set_flags-type (opt_bad ∷ os) f g e = absurd (ground (arith, e))
set_flags-type (opt_d ∷ os) f g e =
    set_flags-type os _ g e
    ∙ elim (Bool-cases f.use_default_acl) [ inl d ↦ rw d refl | inr d ↦ rw d refl ]
set_flags-type (opt_m s ∷ os) f g e = set_flags-type os _ g e
set_flags-type (opt_x s ∷ os) f g e = set_flags-type os _ g e
set_flags-type (opt_v s ∷ os) f g e = set_flags-type os _ g e
set_flags-type (opt_k ∷ os) f g e = set_flags-type os _ g e
set_flags-type (opt_n ∷ os) f g e = set_flags-type os _ g e

set_flags-count : (os : List Opt) (f g : Flags) → set_flags os f ≡ some g → f.opt_cnt ≤ g.opt_cnt
unfolding set_flags
set_flags-count [] f g e = omega (arith, ap (λ (h : Flags). h.opt_cnt) (same_flags f g e))
set_flags-count (opt_bad ∷ os) f g e = absurd (ground (arith, e))
set_flags-count (opt_d ∷ os) f g e = set_flags-count os _ g e
set_flags-count (opt_n ∷ os) f g e = set_flags-count os _ g e
set_flags-count (opt_m s ∷ os) f g e = omega (arith, set_flags-count os _ g e)
set_flags-count (opt_x s ∷ os) f g e = omega (arith, set_flags-count os _ g e)
set_flags-count (opt_v s ∷ os) f g e = omega (arith, set_flags-count os _ g e)
set_flags-count (opt_k ∷ os) f g e = omega (arith, set_flags-count os _ g e)

-- `g` has the mode of `f`.
pub record SameMode (f g : Flags) : Type 0 where
  pub modify : g.modify_acl ≡ f.modify_acl
  pub remove : g.remove_acl ≡ f.remove_acl
  pub remove_default : g.remove_default_acl ≡ f.remove_default_acl
  pub spec : g.acl_spec ≡ f.acl_spec

-- Options that count none set no mode.
set_flags-SameMode :
    (os : List Opt) (f g : Flags)
    → set_flags os f ≡ some g
    → g.opt_cnt ≡ f.opt_cnt
    → (modes os ≡ []) × SameMode f g
unfolding set_flags
set_flags-SameMode [] f g e c =
    let same = sym (same_flags f g e) in
    (
      refl,
      record {
        modify = ap (λ (h : Flags). h.modify_acl) same;
        remove = ap (λ (h : Flags). h.remove_acl) same;
        remove_default = ap (λ (h : Flags). h.remove_default_acl) same;
        spec = ap (λ (h : Flags). h.acl_spec) same;
      },
    )
set_flags-SameMode (opt_bad ∷ os) f g e c = absurd (ground (arith, e))
set_flags-SameMode (opt_d ∷ os) f g e c =
    let (n, m) = set_flags-SameMode os _ g e c in
    (
      n,
      record {
        modify = m.modify;
        remove = m.remove;
        remove_default = m.remove_default;
        spec = m.spec;
      },
    )
set_flags-SameMode (opt_n ∷ os) f g e c =
    let (n, m) = set_flags-SameMode os _ g e c in
    (
      n,
      record {
        modify = m.modify;
        remove = m.remove;
        remove_default = m.remove_default;
        spec = m.spec;
      },
    )
set_flags-SameMode (opt_m s ∷ os) f g e c = absurd (omega (arith, set_flags-count os _ g e, c))
set_flags-SameMode (opt_x s ∷ os) f g e c = absurd (omega (arith, set_flags-count os _ g e, c))
set_flags-SameMode (opt_v s ∷ os) f g e c = absurd (omega (arith, set_flags-count os _ g e, c))
set_flags-SameMode (opt_k ∷ os) f g e c = absurd (omega (arith, set_flags-count os _ g e, c))

-- The flags for the one mode of the options
pub data OneMode (os : List Opt) (g : Flags) : Type 0 where
  mode_m :
      (s : List ℕ)
      → modes os ≡ opt_m s ∷ []
      → g.modify_acl ≡ true
      → g.remove_acl ≡ false
      → g.remove_default_acl ≡ false
      → g.acl_spec ≡ s
      → OneMode os g
  mode_x :
      (s : List ℕ)
      → modes os ≡ opt_x s ∷ []
      → g.modify_acl ≡ false
      → g.remove_acl ≡ true
      → g.remove_default_acl ≡ false
      → g.acl_spec ≡ s
      → OneMode os g
  mode_k : modes os ≡ opt_k ∷ [] → g.modify_acl ≡ false → g.remove_acl ≡ false → OneMode os g
  mode_v :
      (g.modify_acl ≡ false) → g.remove_acl ≡ false → g.remove_default_acl ≡ false → OneMode os g

OneMode-skip :
    (o : Opt) (os : List Opt) (g : Flags)
    → modes (o ∷ os) ≡ modes os
    → OneMode os g
    → OneMode (o ∷ os) g
OneMode-skip o os g e (mode_m s m a b c d) = mode_m s (e ∙ m) a b c d
OneMode-skip o os g e (mode_x s m a b c d) = mode_x s (e ∙ m) a b c d
OneMode-skip o os g e (mode_k m a b) = mode_k (e ∙ m) a b
OneMode-skip o os g e (mode_v a b c) = mode_v a b c

set_flags-OneMode :
    (os : List Opt) (f g : Flags)
    → set_flags os f ≡ some g
    → f.opt_cnt ≡ 0
    → f.modify_acl ≡ false
    → f.remove_acl ≡ false
    → f.remove_default_acl ≡ false
    → g.opt_cnt ≡ 1
    → OneMode os g
unfolding set_flags
set_flags-OneMode [] f g e z a b c o =
    absurd (omega (arith, ap (λ (h : Flags). h.opt_cnt) (same_flags f g e), z, o))
set_flags-OneMode (opt_bad ∷ os) f g e z a b c o = absurd (ground (arith, e))
set_flags-OneMode (opt_d ∷ os) f g e z a b c o =
    OneMode-skip opt_d os g refl (set_flags-OneMode os _ g e z a b c o)
set_flags-OneMode (opt_n ∷ os) f g e z a b c o =
    OneMode-skip opt_n os g refl (set_flags-OneMode os _ g e z a b c o)
set_flags-OneMode (opt_m s ∷ os) f g e z a b c o =
    let (n, m) = set_flags-SameMode os _ g e (omega (arith, z, o)) in
    mode_m s (ap (λ t. opt_m s ∷ t) n) m.modify (m.remove ∙ b) (m.remove_default ∙ c) m.spec
set_flags-OneMode (opt_x s ∷ os) f g e z a b c o =
    let (n, m) = set_flags-SameMode os _ g e (omega (arith, z, o)) in
    mode_x s (ap (λ t. opt_x s ∷ t) n) (m.modify ∙ a) m.remove (m.remove_default ∙ c) m.spec
set_flags-OneMode (opt_v s ∷ os) f g e z a b c o =
    let (n, m) = set_flags-SameMode os _ g e (omega (arith, z, o)) in
    mode_v (m.modify ∙ a) (m.remove ∙ b) (m.remove_default ∙ c)
set_flags-OneMode (opt_k ∷ os) f g e z a b c o =
    let (n, m) = set_flags-SameMode os _ g e (omega (arith, z, o)) in
    mode_k (ap (λ t. opt_k ∷ t) n) (m.modify ∙ a) (m.remove ∙ b)

-- What the flags are for the options
pub record Describes (os : List Opt) (g : Flags) : Type 0 where
  pub all_good : AllGood os
  pub type : type_of g ≡ asked_type os
  pub mode : g.opt_cnt ≡ 1 → OneMode os g

pub set_flags-Describes :
    (os : List Opt) (g : Flags) → set_flags os no_flags ≡ some g → Describes os g
set_flags-Describes os g e = record {
  all_good = set_flags-AllGood os no_flags g e;
  type = set_flags-type os no_flags g e;
  mode = λ o. set_flags-OneMode os no_flags g e refl refl refl refl o;
}
