-- ===== src/Acl/Update.antt =====
-- acl/acl_update.c, `findEntry`, `setPerms` and `main`: the updates of the ACLs of files. libacl is a
-- parameter.
pub mod Options
pub mod Search
pub mod Safety
mod Tests
use the_linux_programming_in.Prelude.{
  ℕ, ◌+◌, ◌≡◌, Bool, true, false, not, ◌&&◌, ◌||◌, Option, none, some, List, [], ◌∷◌, ◌==◌,
  if◌then◌else◌,
}
use the_linux_programming_in.Acl.{
  Tag, acl_user_obj, acl_user, acl_group_obj, acl_group, acl_other, acl_mask, Perms,
  AccessControlEntry, Ids, parse_acl, ◌>>=◌,
}

pub data AclType : Type 0 where
  acl_type_access acl_type_default : AclType

pub data Perm : Type 0 where
  acl_read acl_write acl_execute : Perm

-- The calls of libacl, where `none` and `false` are failures: an ACL in memory, what acl_get_entry()
-- gives call after call until it returns 0, the calls on entries and on sets of permissions; and the
-- files, with the calls that read and change their ACLs.
pub record LibAcl : Type 1 where
  pub Object : Type 0
  pub Entry : Type 0
  pub Permset : Type 0
  pub Files : Type 0
  pub get_entries : Object → List (Option Entry)
  pub get_tag_type : Entry → Object → Option Tag
  pub get_qualifier : Entry → Object → Option ℕ
  pub create_entry : Object → Option (Entry × Object)
  pub delete_entry : Entry → Object → Option Object
  pub set_tag_type : Entry → Tag → Object → Option Object
  pub set_qualifier : Entry → ℕ → Object → Option Object
  pub get_permset : Entry → Object → Option Permset
  pub clear_perms : Permset → Option Permset
  pub add_perm : Perm → Permset → Option Permset
  pub set_permset : Entry → Permset → Object → Option Object
  pub calc_mask : Object → Option Object
  pub valid : Object → Bool
  pub get_file : List ℕ → AclType → Files → Option Object
  pub set_file : List ℕ → AclType → Object → Files → Bool × Files
  pub delete_def_file : List ℕ → Files → Bool × Files

unfoldable pub tag_eq : Tag → Tag → Bool
tag_eq acl_user_obj acl_user_obj = true
tag_eq acl_user acl_user = true
tag_eq acl_group_obj acl_group_obj = true
tag_eq acl_group acl_group = true
tag_eq acl_other acl_other = true
tag_eq acl_mask acl_mask = true
tag_eq s t = false

-- The tags that have a qualifier
abbrev pub has_qualifier : Tag → Bool
unfolding tag_eq
has_qualifier tag = tag_eq tag acl_user || tag_eq tag acl_group

-- The options of the command line; any other one is `opt_bad`.
pub data Opt : Type 0 where
  opt_m opt_x opt_v : List ℕ → Opt
  opt_k opt_d opt_n opt_bad : Opt

-- The flags of `main`
pub record Flags : Type 0 where
  pub recalc_mask : Bool
  pub use_default_acl : Bool
  pub modify_acl : Bool
  pub remove_acl : Bool
  pub remove_default_acl : Bool
  pub check_validity : Bool
  pub acl_spec : List ℕ
  pub opt_cnt : ℕ

abbrev pub no_flags : Flags
no_flags = record {
  recalc_mask = true;
  use_default_acl = false;
  modify_acl = false;
  remove_acl = false;
  remove_default_acl = false;
  check_validity = false;
  acl_spec = [];
  opt_cnt = 0;
}

-- The loop over getopt(); `none` is the exit for a bad option.
unfoldable pub set_flags : List Opt → Flags → Option Flags
set_flags [] f = some f
set_flags (opt_m s ∷ os) f =
    set_flags os (record f { modify_acl = true; acl_spec = s; opt_cnt = f.opt_cnt + 1 })
set_flags (opt_x s ∷ os) f =
    set_flags os (record f { remove_acl = true; acl_spec = s; opt_cnt = f.opt_cnt + 1 })
set_flags (opt_k ∷ os) f =
    set_flags os (record f { remove_default_acl = true; opt_cnt = f.opt_cnt + 1 })
set_flags (opt_v s ∷ os) f =
    set_flags os (record f { check_validity = true; acl_spec = s; opt_cnt = f.opt_cnt + 1 })
set_flags (opt_d ∷ os) f = set_flags os (record f { use_default_acl = true })
set_flags (opt_n ∷ os) f = set_flags os (record f { recalc_mask = false })
set_flags (opt_bad ∷ os) f = none

-- `useDefaultACL ? ACL_TYPE_DEFAULT : ACL_TYPE_ACCESS`
abbrev pub type_of : Flags → AclType
type_of f = if f.use_default_acl then acl_type_default else acl_type_access

abbrev pub is_parsed : Option (List AccessControlEntry) → Bool
is_parsed none = false
is_parsed (some aces) = true

module _ (k : LibAcl) where
  open k use {
    Object, Entry, Permset, Files, get_entries, get_tag_type, get_qualifier, create_entry,
    delete_entry, set_tag_type, set_qualifier, get_permset, clear_perms, add_perm, set_permset,
    calc_mask, valid, get_file, set_file, delete_def_file,
  }

  -- The qualifier of an entry with the tag
  abbrev pub check_qual : Object → Tag → ℕ → Entry → Option (Option Entry) → Option (Option Entry)
  check_qual acl tag qual entry rest =
      if has_qualifier tag
      then (get_qualifier entry acl >>= λ q. if qual == q then some (some entry) else rest)
      else some (some entry)

  -- One round of `findEntry`, with the rest of its loop; the outer `none` is an errExit(), the inner one
  -- NULL.
  unfoldable pub look_at : Object → Tag → ℕ → Entry → Option (Option Entry) → Option (Option Entry)
  unfolding tag_eq
  look_at acl tag qual entry rest = get_tag_type entry acl >>= λ entry_tag.
      if tag_eq tag entry_tag then check_qual acl tag qual entry rest else rest

  unfoldable pub find_in : Object → Tag → ℕ → List (Option Entry) → Option (Option Entry)
  unfolding look_at
  find_in acl tag qual [] = some none
  find_in acl tag qual (none ∷ es) = none
  find_in acl tag qual (some entry ∷ es) = look_at acl tag qual entry (find_in acl tag qual es)

  unfoldable pub find_entry : Object → Tag → ℕ → Option (Option Entry)
  unfolding find_in
  find_entry acl tag qual = find_in acl tag qual (get_entries acl)

  abbrev pub add_if : Bool → Perm → Permset → Option Permset
  add_if wanted perm permset = if wanted then add_perm perm permset else some permset

  unfoldable pub set_perms : Entry → Perms → Object → Option Object
  set_perms entry perms acl = do
    got ← get_permset entry acl
    empty ← clear_perms got
    with_read ← add_if perms.read acl_read empty
    with_write ← add_if perms.write acl_write with_read
    with_all ← add_if perms.execute acl_execute with_write
    set_permset entry with_all acl

  -- A new entry gets the tag and, if the tag has one, the qualifier.
  abbrev pub fill_entry : AccessControlEntry → Entry × Object → Option (Entry × Object)
  fill_entry ace (entry, acl) = do
    tagged ← set_tag_type entry ace.tag acl
    named ← if has_qualifier ace.tag then set_qualifier entry ace.qual tagged else some tagged
    some (entry, named)

  abbrev pub entry_for : AccessControlEntry → Object → Option Entry → Option (Entry × Object)
  entry_for ace acl (some entry) = some (entry, acl)
  entry_for ace acl none = create_entry acl >>= fill_entry ace

  -- Permissions that are unset, which `parseACL` leaves only where they are not used, are a failure.
  abbrev pub perms_on : Option Perms → Entry × Object → Option Object
  unfolding set_perms
  perms_on none (entry, acl) = none
  perms_on (some perms) (entry, acl) = set_perms entry perms acl

  abbrev pub removed : Object → Option Entry → Option Object
  removed acl none = some acl
  removed acl (some entry) = delete_entry entry acl

  -- What `main` does to the ACL in memory for one entry of `aclist`
  unfoldable pub change_entry : Flags → AccessControlEntry → Object → Option Object
  unfolding find_entry set_perms tag_eq
  change_entry f ace acl = do
    entry ← find_entry acl ace.tag ace.qual
    changed ←
        if f.remove_acl then removed acl entry else (entry_for ace acl entry >>= perms_on ace.perms)
    if f.recalc_mask then calc_mask changed else some changed

  -- A call on the files and what follows if it does not fail; `false` is an exit with a failure.
  abbrev pub and_then : Bool × Files → (Files → Bool × Files) → Bool × Files
  and_then (false, s) next = (false, s)
  and_then (true, s) next = next s

  -- acl_valid() and acl_set_file(), with the rest of the loop
  unfoldable pub write_acl :
      Flags → List ℕ → (Object → Files → Bool × Files) → Option Object → Files → Bool × Files
  write_acl f path rest none s = (false, s)
  write_acl f path rest (some acl) s =
      if valid acl then and_then (set_file path (type_of f) acl s) (rest acl) else (false, s)

  -- The loop over `aclist` for a file
  unfoldable pub update_acl :
      Flags → List ℕ → List AccessControlEntry → Object → Files → Bool × Files
  unfolding change_entry write_acl
  update_acl f path [] acl s = (true, s)
  update_acl f path (ace ∷ aces) acl s =
      write_acl f path (update_acl f path aces) (change_entry f ace acl) s

  abbrev pub update_read :
      Flags → List ℕ → List AccessControlEntry → Option Object → Files → Bool × Files
  unfolding update_acl
  update_read f path aces none s = (false, s)
  update_read f path aces (some acl) s = update_acl f path aces acl s

  -- What is done for a file
  unfoldable pub update_file : Flags → List AccessControlEntry → List ℕ → Files → Bool × Files
  unfolding update_acl
  update_file f aces path s =
      if f.remove_default_acl
      then delete_def_file path s
      else if f.modify_acl || f.remove_acl
      then update_read f path aces (get_file path (type_of f) s) s
      else (false, s)

  unfoldable pub update_files :
      Flags → List AccessControlEntry → List (List ℕ) → Files → Bool × Files
  unfolding update_file
  update_files f aces [] s = (true, s)
  update_files f aces (path ∷ paths) s =
      and_then (update_file f aces path s) (update_files f aces paths)

  abbrev pub update_listed :
      Flags → Option (List AccessControlEntry) → List (List ℕ) → Files → Bool × Files
  unfolding update_files
  update_listed f none paths s = (false, s)
  update_listed f (some aces) paths s = update_files f aces paths s

  -- `main` behind its options
  unfoldable pub run : Ids → Flags → List (List ℕ) → Files → Bool × Files
  unfolding parse_acl update_files
  run ids f paths s =
      if not (f.opt_cnt == 1)
      then (false, s)
      else if f.check_validity && f.use_default_acl
      then (false, s)
      else if f.check_validity
      then (is_parsed (parse_acl ids f.acl_spec true), s)
      else if f.modify_acl || f.remove_acl
      then update_listed f (parse_acl ids f.acl_spec f.modify_acl) paths s
      else update_files f [] paths s

  abbrev pub run_flags : Ids → Option Flags → List (List ℕ) → Files → Bool × Files
  unfolding run
  run_flags ids none paths s = (false, s)
  run_flags ids (some f) paths s = run ids f paths s

  -- `true` is EXIT_SUCCESS. The cases of `argc < 2` and `--help` exit as the missing options do.
  unfoldable pub main : Ids → List Opt → List (List ℕ) → Files → Bool × Files
  unfolding set_flags run
  main ids opts paths s = run_flags ids (set_flags opts no_flags) paths s
