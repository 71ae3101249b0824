-- ===== src/Acl.antt =====
-- acl/acl_update.c, `parseEntrySpec` and `parseACL`: an access control list out of the command line.
pub mod Text
pub mod Update
use the_linux_programming_in.Prelude.{
  ℕ, zero, suc, ◌+◌, ◌-◌, ◌*◌, ◌^◌, ◌≤◌, ◌<◌, ◌≡◌, ◌≢◌, ◌↔◌, refl, sym, ap, ◌∙◌, ◌⊎◌, inl, inr,
  Bool, true, false, not, ◌&&◌, ◌||◌, Option, none, some, List, [], ◌∷◌, ◌++◌, map, length, arith,
  Bool-cases, Option-cases, ltb, leb, ◌==◌, if◌then◌else◌, ℤ, pos, negsuc, is_negative,
  is_nonpositive,
}
use mathlib.Core.Path.{subst}
use mathlib.Core.List.{append-nil}
use the_linux_programming_in.CString.{
  char_at, str_eq, str_eq_sound, str_eq_refl, cut, Lacks, cut_found, cut_missing, Lacks-append,
}

infixl 5 ◌>>=◌
abbrev ◌>>=◌ : {A B : Type 0} → Option A → (A → Option B) → Option B
◌>>=◌ none f = none
◌>>=◌ (some a) f = f a

-- `acl_tag_t`
pub data Tag : Type 0 where
  acl_user_obj acl_user acl_group_obj acl_group acl_other acl_mask : Tag

-- The bits ACL_READ, ACL_WRITE and ACL_EXECUTE
pub record Perms : Type 0 where
  pub read : Bool
  pub write : Bool
  pub execute : Bool

-- `perms` stays unset, `none`, where the text has no permissions.
pub record AccessControlEntry : Type 0 where
  pub tag : Tag
  pub qual : ℕ
  pub perms : Option Perms

abbrev pub max_entries : ℕ
max_entries = 10000

abbrev pub no_perms : Perms
no_perms = record { read = false; write = false; execute = false }

-- The loop over the permissions string, from the bits found so far
unfoldable pub parse_perms : Perms → List ℕ → Option Perms
parse_perms m [] = some m
parse_perms m (c ∷ cs) =
    let with_r = parse_perms (record m { read = true }) cs in
    let with_w = parse_perms (record m { write = true }) cs in
    let with_x = parse_perms (record m { execute = true }) cs in
    let same = parse_perms m cs in
    if c == b'r'
    then with_r
    else if c == b'w'
    then with_w
    else if c == b'x'
    then with_x
    else if c == b'-'
    then same
    else none

-- `*(colon1 + 1) != '\0' && *(colon1 + 1) != ':'`
abbrev pub has_qual : List ℕ → Bool
has_qual rest = not (char_at rest 0 == 0) && not (char_at rest 0 == b':')

-- `colon2 != NULL && *(colon2 + 1) != '\0'`
abbrev pub has_perms : Option (List ℕ) → Bool
has_perms none = false
has_perms (some p) = not (char_at p 0 == 0)

unfoldable pub tag_of : List ℕ → Bool → Option Tag
unfolding str_eq
tag_of s qualified =
    if str_eq s (b'u' ∷ []) || str_eq s (b'u' ∷ b's' ∷ b'e' ∷ b'r' ∷ [])
    then some (if qualified then acl_user else acl_user_obj)
    else if str_eq s (b'g' ∷ []) || str_eq s (b'g' ∷ b'r' ∷ b'o' ∷ b'u' ∷ b'p' ∷ [])
    then some (if qualified then acl_group else acl_group_obj)
    else if str_eq s (b'o' ∷ []) || str_eq s (b'o' ∷ b't' ∷ b'h' ∷ b'e' ∷ b'r' ∷ [])
    then some acl_other
    else if str_eq s (b'm' ∷ []) || str_eq s (b'm' ∷ b'a' ∷ b's' ∷ b'k' ∷ [])
    then some acl_mask
    else none

-- `userIdFromName` and `groupIdFromName` of users_groups/ugid_functions.c ask the password and group
-- files; -1 is `none`.
pub record Ids : Type 0 where
  pub user_id_from_name : List ℕ → Option ℕ
  pub group_id_from_name : List ℕ → Option ℕ

unfoldable pub qual_of : Ids → Tag → List ℕ → Option ℕ
qual_of ids acl_user q = ids.user_id_from_name q
qual_of ids acl_group q = ids.group_id_from_name q
qual_of ids acl_user_obj q = some 0
qual_of ids acl_group_obj q = some 0
qual_of ids acl_other q = some 0
qual_of ids acl_mask q = some 0

-- The permissions, where the text has any
abbrev pub perms_of : Option (List ℕ) → Option (Option Perms)
perms_of none = some none
perms_of (some p) =
    let bits = parse_perms no_perms p in
    if has_perms (some p) then (bits >>= λ m. some (some m)) else some none

-- From the tag on: the qualifier, then the permissions
unfoldable pub parse_tagged : Ids → List ℕ → Option (List ℕ) → Tag → Option AccessControlEntry
unfolding qual_of parse_perms
parse_tagged ids q perms tag = do
  id ← qual_of ids tag q
  m ← perms_of perms
  some (record { tag = tag; qual = id; perms = m })

-- Behind the first colon: the two checks against `permsReqd`, then the tag
unfoldable pub parse_fields :
    Ids → List ℕ → Bool → List ℕ × Option (List ℕ) → Bool → Option AccessControlEntry
unfolding tag_of parse_tagged
parse_fields ids name qualified (q, perms) perms_reqd =
    if has_perms perms && not perms_reqd
    then none
    else if not (has_perms perms) && perms_reqd
    then none
    else do t ← tag_of name qualified; parse_tagged ids q perms t

unfoldable pub parse_rest : Ids → List ℕ → Option (List ℕ) → Bool → Option AccessControlEntry
unfolding parse_fields cut
parse_rest ids name none perms_reqd = none
parse_rest ids name (some rest) perms_reqd =
    parse_fields ids name (has_qual rest) (cut b':' rest) perms_reqd

-- FALSE is `none`.
unfoldable pub parse_entry_spec : Ids → List ℕ → Bool → Option AccessControlEntry
unfolding cut parse_rest
parse_entry_spec ids entry_str perms_reqd =
    let (name, rest) = cut b':' entry_str in parse_rest ids name rest perms_reqd

-- The entries that the rounds of `parseACL` meet: `comma = strchr(nextEntry, ',')`, `nextEntry = comma + 1`
abbrev pub push_front : ℕ → List (List ℕ) → List (List ℕ)
push_front c [] = (c ∷ []) ∷ []
push_front c (e ∷ es) = (c ∷ e) ∷ es

unfoldable pub entries : List ℕ → List (List ℕ)
entries [] = [] ∷ []
entries (c ∷ cs) = let rest = entries cs in if c == b',' then [] ∷ rest else push_front c rest

-- The loop of `parseACL` with its count `n`; -1 is `none`.
unfoldable pub parse_entries : Ids → Bool → ℕ → List (List ℕ) → Option (List AccessControlEntry)
unfolding parse_entry_spec
parse_entries ids perms_reqd n [] = some []
parse_entries ids perms_reqd n (e ∷ es) =
    let rest = parse_entries ids perms_reqd (n + 1) es in
    if leb max_entries n
    then none
    else do a ← parse_entry_spec ids e perms_reqd; found ← rest; some (a ∷ found)

-- The entries of `aclist` that were filled; their number is the result.
unfoldable pub parse_acl : Ids → List ℕ → Bool → Option (List AccessControlEntry)
unfolding parse_entries entries
parse_acl ids acl_str perms_reqd = parse_entries ids perms_reqd 0 (entries acl_str)
