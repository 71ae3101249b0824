-- ===== src/UtilityTests.antt =====
-- The theorems on acl/acl_update.c, lib/get_num.c and timers/itimerspec_from_str.c at concrete inputs.
use the_linux_programming_in.Prelude.{
  ℕ, ◌+◌, ◌-◌, ◌*◌, ◌≡◌, ◌↔◌, refl, true, false, none, some, List, [], ◌∷◌, arith, ℤ, pos,
}
use the_linux_programming_in.CString.{char_at, str_eq, cut}
use the_linux_programming_in.GetNum.{
  Flags, Converted, number, get_long, get_int, Accepts, FitsInt, get_long_iff, get_int_iff,
}
use the_linux_programming_in.FilePerms.{Perm, read_perm, file_perm_str, shown, file_perm_str_lem}
use the_linux_programming_in.ItimerSpec.{Part}
use the_linux_programming_in.Acl.{
  AccessControlEntry, Ids, no_perms, acl_other, acl_user, parse_perms, parse_entry_spec, parse_acl,
  parse_rest, parse_fields, tag_of, parse_tagged, qual_of,
}
use the_linux_programming_in.Acl.Text.{joined, parse_acl_lem}

abbrev decimal : ℕ → List ℕ → ℕ
decimal acc [] = acc
decimal acc (c ∷ cs) = decimal (acc * 10 + (c - b'0')) cs

abbrev digits_42 : List ℕ
digits_42 = b'4' ∷ b'2' ∷ []

-- It reads the digits of a text, of which it takes all to be digits.
abbrev strtol : List ℕ → ℕ → Converted
strtol s base = record { value = pos (decimal 0 s); errno_set = false; rest = [] }

abbrev positive_only : Flags
positive_only = record {
  nonneg = false;
  gt_0 = true;
  any_base = false;
  base_8 = false;
  base_16 = false;
}

get_long_iff_example :
    (get_long strtol (some digits_42) positive_only ≡ number (pos 42))
    ↔ Accepts strtol (some digits_42) positive_only (pos 42)
get_long_iff_example = get_long_iff strtol (some digits_42) positive_only (pos 42)

get_int_iff_example :
    (get_int strtol (some digits_42) positive_only ≡ number (pos 42))
    ↔ (Accepts strtol (some digits_42) positive_only (pos 42) × FitsInt (pos 42))
get_int_iff_example = get_int_iff strtol (some digits_42) positive_only (pos 42)

abbrev atoi : List ℕ → ℤ
atoi s = pos (decimal 0 s)

abbrev half : Part
half = record { sec = b'1' ∷ []; nsec = some (b'5' ∷ []) }

abbrev all_bits : Perm
all_bits = record {
  irusr = true;
  iwusr = false;
  ixusr = true;
  irgrp = true;
  iwgrp = true;
  ixgrp = false;
  iroth = true;
  iwoth = false;
  ixoth = false;
  isuid = true;
  isgid = true;
  isvtx = false;
}

file_perm_str_lem_example : read_perm (file_perm_str all_bits false) ≡ some (shown all_bits false)
file_perm_str_lem_example = file_perm_str_lem all_bits false

abbrev ids : Ids
ids = record { user_id_from_name = λ s. some 7; group_id_from_name = λ s. none }

-- `o::r` and `u:x:w`
abbrev entry_o : List ℕ
entry_o = b'o' ∷ b':' ∷ b':' ∷ b'r' ∷ []

abbrev entry_u : List ℕ
entry_u = b'u' ∷ b':' ∷ b'x' ∷ b':' ∷ b'w' ∷ []

abbrev ace_o : AccessControlEntry
ace_o = record { tag = acl_other; qual = 0; perms = some (record no_perms { read = true }) }

abbrev ace_u : AccessControlEntry
ace_u = record { tag = acl_user; qual = 7; perms = some (record no_perms { write = true }) }

parses_o : parse_entry_spec ids entry_o true ≡ some ace_o
unfolding parse_entry_spec cut parse_rest parse_fields tag_of str_eq parse_tagged qual_of
    parse_perms char_at
parses_o = refl

parses_u : parse_entry_spec ids entry_u true ≡ some ace_u
unfolding parse_entry_spec cut parse_rest parse_fields tag_of str_eq parse_tagged qual_of
    parse_perms char_at
parses_u = refl

parse_acl_lem_example :
    parse_acl ids (joined entry_o (entry_u ∷ [])) true ≡ some (ace_o ∷ ace_u ∷ [])
parse_acl_lem_example =
    parse_acl_lem ids true entry_o (entry_u ∷ []) (ace_o ∷ ace_u ∷ [])
      (refl, (refl, (refl, (refl, tt)))) ((refl, (refl, (refl, (refl, (refl, tt))))), tt)
      (omega arith) (parses_o, (parses_u, tt))
