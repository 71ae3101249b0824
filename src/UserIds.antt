-- ===== src/UserIds.antt =====
-- users_groups/ugid_functions.c: names and numbers of users and groups. The password and group files and
-- strtol() are parameters.
use the_linux_programming_in.Prelude.{
  ℕ, ◌-◌, ◌%◌, ◌^◌, ◌≡◌, ◌≢◌, refl, Bool, true, false, Option, none, some, List, [], ◌∷◌, ◌==◌,
  if◌then◌else◌, ℤ, pos, negsuc,
}
use the_linux_programming_in.GetNum.{Converted, is_end}
use the_linux_programming_in.Acl.{Ids}

-- getpwuid(), getpwnam(), getgrgid() and getgrnam(), of whose results the name or the number is used
pub record Databases : Type 0 where
  pub getpwuid : ℕ → Option (List ℕ)
  pub getpwnam : List ℕ → Option ℕ
  pub getgrgid : ℕ → Option (List ℕ)
  pub getgrnam : List ℕ → Option ℕ

-- -1 as a `uid_t` or a `gid_t`
abbrev pub minus_1 : ℕ
minus_1 = 2 ^ 32 - 1

-- A long that is assigned to a `uid_t` or a `gid_t`
unfoldable pub to_id : ℤ → ℕ
to_id (pos n) = n % 2 ^ 32
to_id (negsuc n) = minus_1 - n % 2 ^ 32

abbrev pub is_some : Option (List ℕ) → Bool
is_some none = false
is_some (some name) = true

module _ (db : Databases) (strtol : List ℕ → ℕ → Converted) where
  unfoldable pub user_name_from_id : ℕ → Option (List ℕ)
  user_name_from_id uid = db.getpwuid uid

  unfoldable pub group_name_from_id : ℕ → Option (List ℕ)
  group_name_from_id gid = db.getgrgid gid

  abbrev pub found_or_minus_1 : Option ℕ → ℕ
  found_or_minus_1 none = minus_1
  found_or_minus_1 (some id) = id

  -- `none` is a null pointer.
  unfoldable pub user_id_from_name : Option (List ℕ) → ℕ
  unfolding to_id
  user_id_from_name none = minus_1
  user_id_from_name (some []) = minus_1
  user_id_from_name (some (c ∷ cs)) =
      let u = strtol (c ∷ cs) 10 in
      if is_end u.rest then to_id u.value else found_or_minus_1 (db.getpwnam (c ∷ cs))

  unfoldable pub group_id_from_name : Option (List ℕ) → ℕ
  unfolding to_id
  group_id_from_name none = minus_1
  group_id_from_name (some []) = minus_1
  group_id_from_name (some (c ∷ cs)) =
      let g = strtol (c ∷ cs) 10 in
      if is_end g.rest then to_id g.value else found_or_minus_1 (db.getgrnam (c ∷ cs))

  -- `== -1`, as acl/acl_update.c tests the results
  abbrev pub unless_minus_1 : ℕ → Option ℕ
  unless_minus_1 id = if id == minus_1 then none else some id

  -- The two functions as acl/acl_update.c uses them
  abbrev pub ids : Ids
  unfolding user_id_from_name group_id_from_name
  ids = record {
    user_id_from_name = λ name. unless_minus_1 (user_id_from_name (some name));
    group_id_from_name = λ name. unless_minus_1 (group_id_from_name (some name));
  }

-- Every entry that is found by its number has a name of at least a byte, that strtol() does not take for a
-- number, and is found by that name too.
pub record IsNamed (db : Databases) (strtol : List ℕ → ℕ → Converted) : Type 0 where
  pub user_named :
      (uid : ℕ) (name : List ℕ) → db.getpwuid uid ≡ some name → db.getpwnam name ≡ some uid
  pub user_word :
      (uid : ℕ) (name : List ℕ) → db.getpwuid uid ≡ some name → is_end (strtol name 10).rest ≡ false
  pub user_byte : (uid : ℕ) → db.getpwuid uid ≢ some []
  pub group_named :
      (gid : ℕ) (name : List ℕ) → db.getgrgid gid ≡ some name → db.getgrnam name ≡ some gid
  pub group_word :
      (gid : ℕ) (name : List ℕ) → db.getgrgid gid ≡ some name → is_end (strtol name 10).rest ≡ false
  pub group_byte : (gid : ℕ) → db.getgrgid gid ≢ some []

module _ (db : Databases) (strtol : List ℕ → ℕ → Converted) (h : IsNamed db strtol) where
  user_roundtrip :
      (uid : ℕ) (r : Option (List ℕ))
      → db.getpwuid uid ≡ r
      → user_id_from_name db strtol r ≡ (if is_some r then uid else minus_1)
  unfolding user_id_from_name
  user_roundtrip uid none e = refl
  user_roundtrip uid (some []) e = absurd (h.user_byte uid e)
  user_roundtrip uid (some (c ∷ cs)) e =
      rw (h.user_word uid (c ∷ cs) e, h.user_named uid (c ∷ cs) e) refl

  group_roundtrip :
      (gid : ℕ) (r : Option (List ℕ))
      → db.getgrgid gid ≡ r
      → group_id_from_name db strtol r ≡ (if is_some r then gid else minus_1)
  unfolding group_id_from_name
  group_roundtrip gid none e = refl
  group_roundtrip gid (some []) e = absurd (h.group_byte gid e)
  group_roundtrip gid (some (c ∷ cs)) e =
      rw (h.group_word gid (c ∷ cs) e, h.group_named gid (c ∷ cs) e) refl

  -- Where every entry of the files is found by its name as by its number, and no name is a number: the name
  -- that `userNameFromId` gives leads `userIdFromName` back to the number, and so for groups; a number
  -- without an entry leads to -1.
  pub user_id_from_name-user_name_from_id :
      (id : ℕ)
      → (user_id_from_name db strtol (user_name_from_id db strtol id)
          ≡ (if is_some (user_name_from_id db strtol id) then id else minus_1))
        × (group_id_from_name db strtol (group_name_from_id db strtol id)
            ≡ (if is_some (group_name_from_id db strtol id) then id else minus_1))
  unfolding user_name_from_id group_name_from_id
  user_id_from_name-user_name_from_id id =
      (user_roundtrip id (db.getpwuid id) refl, group_roundtrip id (db.getgrgid id) refl)
