-- ===== src/FilePerms.antt =====
-- files/file_perms.c: the permissions of a file as ls(1) shows them.
use the_linux_programming_in.Prelude.{
  ◌∙◌, ap, ℕ, ◌≡◌, refl, Bool, true, false, ◌&&◌, ◌||◌, Option, none, some, List, [], ◌∷◌, arith,
  ◌==◌, if◌then◌else◌,
}

-- The twelve bits of `perm`
pub record Perm : Type 0 where
  pub irusr : Bool
  pub iwusr : Bool
  pub ixusr : Bool
  pub irgrp : Bool
  pub iwgrp : Bool
  pub ixgrp : Bool
  pub iroth : Bool
  pub iwoth : Bool
  pub ixoth : Bool
  pub isuid : Bool
  pub isgid : Bool
  pub isvtx : Bool

abbrev pub bit_char : ℕ → Bool → ℕ
bit_char c set = if set then c else b'-'

-- `(perm & x) ? (((perm & s) && (flags & FP_SPECIAL)) ? lower : 'x')`
--           `: (((perm & s) && (flags & FP_SPECIAL)) ? upper : '-')`
abbrev pub exec_char : ℕ → ℕ → Bool → Bool → Bool → ℕ
exec_char lower upper x s special =
    if x then (if s && special then lower else b'x') else (if s && special then upper else b'-')

-- `fp_special` is the only bit of `flags`.
unfoldable pub file_perm_str : Perm → Bool → List ℕ
file_perm_str p fp_special =
    bit_char b'r' p.irusr
    ∷ bit_char b'w' p.iwusr
    ∷ exec_char b's' b'S' p.ixusr p.isuid fp_special
    ∷ bit_char b'r' p.irgrp
    ∷ bit_char b'w' p.iwgrp
    ∷ exec_char b's' b'S' p.ixgrp p.isgid fp_special
    ∷ bit_char b'r' p.iroth
    ∷ bit_char b'w' p.iwoth
    ∷ exec_char b't' b'T' p.ixoth p.isvtx fp_special
    ∷ []

-- A reader of such a string: 'x' and the lower case letter mean that the file can be executed, the two
-- letters that the special bit is set.
abbrev pub reads_x : ℕ → ℕ → Bool
reads_x lower c = c == b'x' || c == lower

abbrev pub reads_special : ℕ → ℕ → ℕ → Bool
reads_special lower upper c = c == lower || c == upper

abbrev pub read_perm : List ℕ → Option Perm
read_perm (a ∷ b ∷ c ∷ d ∷ e ∷ f ∷ g ∷ h ∷ i ∷ []) = some (record {
  irusr = a == b'r';
  iwusr = b == b'w';
  ixusr = reads_x b's' c;
  irgrp = d == b'r';
  iwgrp = e == b'w';
  ixgrp = reads_x b's' f;
  iroth = g == b'r';
  iwoth = h == b'w';
  ixoth = reads_x b't' i;
  isuid = reads_special b's' b'S' c;
  isgid = reads_special b's' b'S' f;
  isvtx = reads_special b't' b'T' i;
})
read_perm s = none

reads_r : (b : Bool) → (bit_char b'r' b == b'r') ≡ b
reads_r true = refl
reads_r false = refl

reads_w : (b : Bool) → (bit_char b'w' b == b'w') ≡ b
reads_w true = refl
reads_w false = refl

module _ (s : Bool) where
  reads_xs : (x : Bool) → reads_x b's' (exec_char b's' b'S' x s true) ≡ x
  reads_xs x = ground arith

  reads_xt : (x : Bool) → reads_x b't' (exec_char b't' b'T' x s true) ≡ x
  reads_xt x = ground arith

  reads_s : (x : Bool) → reads_special b's' b'S' (exec_char b's' b'S' x s true) ≡ s
  reads_s x = ground arith

  reads_t : (x : Bool) → reads_special b't' b'T' (exec_char b't' b'T' x s true) ≡ s
  reads_t x = ground arith

-- With FP_SPECIAL nothing of the twelve bits is lost: a reader of the string gets them back.
pub file_perm_str_roundtrip : (p : Perm) → read_perm (file_perm_str p true) ≡ some p
unfolding file_perm_str
file_perm_str_roundtrip p = rw (
  reads_r p.irusr,
  reads_w p.iwusr,
  reads_xs p.isuid p.ixusr,
  reads_r p.irgrp,
  reads_w p.iwgrp,
  reads_xs p.isgid p.ixgrp,
  reads_r p.iroth,
  reads_w p.iwoth,
  reads_xt p.isvtx p.ixoth,
  reads_s p.isuid p.ixusr,
  reads_s p.isgid p.ixgrp,
  reads_t p.isvtx p.ixoth,
)

plain_exec :
    (lower upper : ℕ) (x s : Bool)
    → exec_char lower upper x s false ≡ exec_char lower upper x false true
plain_exec lower upper x s = ground arith

file_perm_str_plain :
    (p : Perm)
    → file_perm_str p false
      ≡ file_perm_str (record p { isuid = false; isgid = false; isvtx = false }) true
unfolding file_perm_str
file_perm_str_plain p = rw (
  plain_exec b's' b'S' p.ixusr p.isuid,
  plain_exec b's' b'S' p.ixgrp p.isgid,
  plain_exec b't' b'T' p.ixoth p.isvtx,
)

-- The permissions that a string tells of
abbrev pub shown : Perm → Bool → Perm
shown p true = p
shown p false = record p { isuid = false; isgid = false; isvtx = false }

-- The nine characters of `filePermStr` can be read back: with FP_SPECIAL they tell all twelve bits of the
-- mask, without it the nine permissions.
pub file_perm_str_lem :
    (p : Perm) (special : Bool) → read_perm (file_perm_str p special) ≡ some (shown p special)
file_perm_str_lem p true = file_perm_str_roundtrip p
file_perm_str_lem p false =
    ap read_perm (file_perm_str_plain p) ∙ file_perm_str_roundtrip (shown p false)
