-- ===== src/Acl/Update/Tests.antt =====
-- The theorems on the updates of acl/acl_update.c at a concrete library.
use the_linux_programming_in.Prelude.{ℕ, true, none, some, List, [], ◌∷◌, map}
use the_linux_programming_in.Acl.{Tag, acl_user, acl_user_obj, acl_mask, Ids}
use the_linux_programming_in.Acl.Update.{LibAcl, Opt, opt_m, opt_d, main}
use the_linux_programming_in.Acl.Update.Safety.{Touched, main-Allowed}

-- ACLs as lists of tags with qualifiers; the files are the list of those that were written.
abbrev lists : LibAcl
lists = record {
  Object = List (Tag × ℕ);
  Entry = Tag × ℕ;
  Permset = ℕ;
  Files = List (List ℕ);
  get_entries = λ acl. map some acl;
  get_tag_type = λ e acl. some e.0;
  get_qualifier = λ e acl. some e.1;
  create_entry = λ acl. some ((acl_mask, 0), acl);
  delete_entry = λ e acl. some acl;
  set_tag_type = λ e tag acl. some acl;
  set_qualifier = λ e q acl. some acl;
  get_permset = λ e acl. some 0;
  clear_perms = λ p. some 0;
  add_perm = λ perm p. some p;
  set_permset = λ e p acl. some acl;
  calc_mask = λ acl. some acl;
  valid = λ acl. true;
  get_file = λ path type s. some ((acl_user_obj, 0) ∷ []);
  set_file = λ path type acl s. (true, path ∷ s);
  delete_def_file = λ path s. (true, s);
}

abbrev two_users : List (Tag × ℕ)
two_users = (acl_user, 5) ∷ (acl_user, 7) ∷ []

abbrev nobody : Ids
nobody = record { user_id_from_name = λ name. none; group_id_from_name = λ name. none }

-- -d -m u::r
abbrev read_for_owner : List Opt
read_for_owner = opt_d ∷ opt_m (b'u' ∷ b':' ∷ b':' ∷ b'r' ∷ []) ∷ []

abbrev a_file : List ℕ
a_file = b'f' ∷ []

main-Allowed_example :
    Touched lists nobody read_for_owner
      (a_file ∷ [])
      []
      (main lists nobody read_for_owner (a_file ∷ []) []).1
main-Allowed_example = main-Allowed lists nobody read_for_owner (a_file ∷ []) []
