-- ===== src/Acl/Text.antt =====
-- `parseEntrySpec` and `parseACL` of acl/acl_update.c on the texts of entries.
use the_linux_programming_in.Prelude.{
  ℕ, ◌+◌, ◌≤◌, ◌<◌, ◌≡◌, refl, ap, ◌∙◌, inl, inr, Bool, true, false, ◌||◌, none, some, List, [],
  ◌∷◌, ◌++◌, length, arith, Bool-cases, Option-cases, leb, ◌==◌,
}
use the_linux_programming_in.CString.{Lacks}
use the_linux_programming_in.CString.{char_at, HasNoNull, cut_found, cut_missing}
use the_linux_programming_in.Prelude.{if◌then◌else◌}
use the_linux_programming_in.Acl.{
  Tag, has_qual, has_perms, tag_of, qual_of, parse_rest, parse_fields, parse_tagged,
}
use the_linux_programming_in.Acl.{
  Perms, AccessControlEntry, Ids, max_entries, no_perms, parse_perms, parse_entry_spec, entries,
  parse_entries, parse_acl,
}

-- Bytes that the loop over a permissions string accepts
abbrev pub IsPermsText : List ℕ → Type 0
IsPermsText [] = Unit
IsPermsText (c ∷ cs) = ((c == b'r' || c == b'w' || c == b'x' || c == b'-') ≡ true) × IsPermsText cs

abbrev pub occurs : ℕ → List ℕ → Bool
occurs c [] = false
occurs c (x ∷ xs) = (x == c) || occurs c xs

abbrev bits_with : Perms → List ℕ → Perms
bits_with m p = record {
  read = m.read || occurs b'r' p;
  write = m.write || occurs b'w' p;
  execute = m.execute || occurs b'x' p;
}

parse_perms_from : (m : Perms) (p : List ℕ) → IsPermsText p → parse_perms m p ≡ some (bits_with m p)
unfolding parse_perms
parse_perms_from m [] h = ground arith
parse_perms_from m (c ∷ cs) h = ground (
  arith,
  parse_perms_from m cs h.1,
  parse_perms_from (record m { read = true }) cs h.1,
  parse_perms_from (record m { write = true }) cs h.1,
  parse_perms_from (record m { execute = true }) cs h.1,
  h.0,
)

-- A permissions string of `r`, `w`, `x` and `-`, in any order and number, sets exactly the bits whose
-- letters occur in it.
pub parse_perms_lem :
    (p : List ℕ)
    → IsPermsText p
    → parse_perms no_perms p
      ≡ some (record { read = occurs b'r' p; write = occurs b'w' p; execute = occurs b'x' p })
parse_perms_lem p h = parse_perms_from no_perms p h

abbrev pub is_given : List ℕ → Bool
is_given [] = false
is_given (c ∷ cs) = true

has_qual-given :
    (q rest : List ℕ) → Lacks b':' q → HasNoNull q → has_qual (q ++ b':' ∷ rest) ≡ is_given q
unfolding char_at
has_qual-given [] rest h n = refl
has_qual-given (c ∷ q) rest h n = ground (arith, h.0, n.0)

has_qual-end : (q : List ℕ) → Lacks b':' q → HasNoNull q → has_qual q ≡ is_given q
unfolding char_at
has_qual-end [] h n = refl
has_qual-end (c ∷ q) h n = ground (arith, h.0, n.0)

has_perms-text : (p : List ℕ) → 0 < length p → IsPermsText p → has_perms (some p) ≡ true
unfolding char_at
has_perms-text [] l h = ground arith
has_perms-text (c ∷ cs) l h = ground (arith, h.0)

module _ (ids : Ids) (name q : List ℕ) (tag : Tag) (id : ℕ) (nc : Lacks b':' name)
    (qc : Lacks b':' q) (qn : HasNoNull q) (t : tag_of name (is_given q) ≡ some tag)
    (u : qual_of ids tag q ≡ some id) where
  fields :
      (p : List ℕ) (perms_reqd : Bool)
      → parse_entry_spec ids (name ++ b':' ∷ (q ++ b':' ∷ p)) perms_reqd
        ≡ parse_fields ids name (is_given q) (q, some p) perms_reqd
  unfolding parse_entry_spec parse_rest
  fields p perms_reqd =
      rw (cut_found b':' name (q ++ b':' ∷ p) nc, has_qual-given q p qc qn, cut_found b':' q p qc)

  -- If the name is a tag's and has no colon, the qualifier has neither colon nor null byte and gives
  -- an identifier, and the permissions are letters `r`, `w`, `x` and `-`, at least one: the text of
  -- the three with colons between them parses, where permissions are required, to that tag,
  -- identifier and the bits of the letters; where none are allowed it is refused.
  pub parse_entry_spec_perms :
      (p : List ℕ) (perms_reqd : Bool)
      → 0 < length p
      → IsPermsText p
      → parse_entry_spec ids (name ++ b':' ∷ (q ++ b':' ∷ p)) perms_reqd ≡ (
          if perms_reqd
          then some (record {
            tag = tag;
            qual = id;
            perms =
                some
                  (record { read = occurs b'r' p; write = occurs b'w' p; execute = occurs b'x' p });
          })
          else none)
  unfolding parse_entry_spec parse_rest parse_fields parse_tagged
  parse_entry_spec_perms p true l h =
      fields p true ∙ rw (has_perms-text p l h, t, u, parse_perms_lem p h)
  parse_entry_spec_perms p false l h = fields p false ∙ rw (has_perms-text p l h)

  -- If the name is a tag's and has no colon, and the qualifier has neither colon nor null byte and
  -- gives an identifier: the text of the two with a colon between them parses, where no permissions
  -- are required, to that tag and identifier without permissions; where permissions are required it
  -- is refused.
  pub parse_entry_spec_bare :
      (perms_reqd : Bool)
      → parse_entry_spec ids (name ++ b':' ∷ q) perms_reqd
        ≡ (if perms_reqd then none else some (record { tag = tag; qual = id; perms = none }))
  unfolding parse_entry_spec parse_rest parse_fields parse_tagged
  parse_entry_spec_bare true = rw (cut_found b':' name q nc, cut_missing b':' q qc)
  parse_entry_spec_bare false =
      rw (cut_found b':' name q nc, has_qual-end q qc qn, cut_missing b':' q qc, t, u)

-- The entries with commas between them
abbrev pub joined : List ℕ → List (List ℕ) → List ℕ
joined e [] = e
joined e (f ∷ es) = e ++ b',' ∷ joined f es

abbrev pub AllLack : List (List ℕ) → Type 0
AllLack [] = Unit
AllLack (e ∷ es) = Lacks b',' e × AllLack es

entries_alone : (e : List ℕ) → Lacks b',' e → entries e ≡ e ∷ []
unfolding entries
entries_alone [] h = refl
entries_alone (c ∷ cs) h = rw (h.0, entries_alone cs h.1)

entries_first : (e rest : List ℕ) → Lacks b',' e → entries (e ++ b',' ∷ rest) ≡ e ∷ entries rest
unfolding entries
entries_first [] rest h = refl
entries_first (c ∷ cs) rest h = rw (h.0, entries_first cs rest h.1)

entries-joined :
    (e : List ℕ) (es : List (List ℕ)) → Lacks b',' e → AllLack es → entries (joined e es) ≡ e ∷ es
entries-joined e [] h k = entries_alone e h
entries-joined e (f ∷ es) h k =
    entries_first e (joined f es) h ∙ ap (λ r. e ∷ r) (entries-joined f es k.0 k.1)

module _ (ids : Ids) (reqd : Bool) where
  -- The entries parse, one by one, to the list.
  abbrev pub Parse : List (List ℕ) → List AccessControlEntry → Type 0
  Parse [] [] = Unit
  Parse [] (a ∷ found) = ⊥
  Parse (e ∷ es) [] = ⊥
  Parse (e ∷ es) (a ∷ found) = (parse_entry_spec ids e reqd ≡ some a) × Parse es found

  parse_entries_lem :
      (n : ℕ) (es : List (List ℕ)) (found : List AccessControlEntry)
      → Parse es found
      → n + length es ≤ max_entries
      → parse_entries ids reqd n es ≡ some found
  unfolding parse_entries
  parse_entries_lem n [] [] h l = refl
  parse_entries_lem n [] (a ∷ found) h l = absurd h
  parse_entries_lem n (e ∷ es) [] h l = absurd h
  parse_entries_lem n (e ∷ es) (a ∷ found) h l =
      let room : leb max_entries n ≡ false = ground arith in
      rw (room, h.0, parse_entries_lem (n + 1) es found h.1 (omega arith))

  parse_entries_full :
      (n : ℕ) (es : List (List ℕ))
      → n ≤ max_entries
      → max_entries < n + length es
      → parse_entries ids reqd n es ≡ none
  unfolding parse_entries
  parse_entries_full n [] l m = absurd (omega arith)
  parse_entries_full n (e ∷ es) l m = elim (Bool-cases (leb max_entries n)) [
    | inl full ↦ rw full
    | inr room ↦
        let rest : parse_entries ids reqd (n + 1) es ≡ none =
          parse_entries_full (n + 1) es (ground arith) (omega arith) in
        elim (Option-cases (parse_entry_spec ids e reqd)) [
          | inl bad ↦ rw (room, bad)
          | inr (a, good) ↦ rw (room, good, rest)
        ]
  ]

  -- If each of at most MAX_ENTRIES texts without a comma parses found an entry, `parseACL` returns those
  -- entries, in their order, for the texts with commas between them.
  pub parse_acl_lem :
      (e : List ℕ) (es : List (List ℕ)) (found : List AccessControlEntry)
      → Lacks b',' e
      → AllLack es
      → length (e ∷ es) ≤ max_entries
      → Parse (e ∷ es) found
      → parse_acl ids (joined e es) reqd ≡ some found
  unfolding parse_acl
  parse_acl_lem e es found h k l p =
      rw (entries-joined e es h k) (parse_entries_lem 0 (e ∷ es) found p (omega (arith, l)))

  -- More than MAX_ENTRIES texts without a comma, with commas between them, are refused, whatever the
  -- texts are.
  pub parse_acl_full :
      (e : List ℕ) (es : List (List ℕ))
      → Lacks b',' e
      → AllLack es
      → max_entries < length (e ∷ es)
      → parse_acl ids (joined e es) reqd ≡ none
  unfolding parse_acl
  parse_acl_full e es h k l =
      rw (entries-joined e es h k) (parse_entries_full 0 (e ∷ es) (omega arith) (omega (arith, l)))
