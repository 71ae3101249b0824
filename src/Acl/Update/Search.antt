-- ===== src/Acl/Update/Search.antt =====
-- What `findEntry` of acl/acl_update.c finds.
use the_linux_programming_in.Prelude.{
  ℕ, Bool, not, ◌&&◌, ◌||◌, Option, none, some, List, [], ◌∷◌, ◌==◌, if◌then◌else◌,
}
use the_linux_programming_in.Acl.{Tag}
use the_linux_programming_in.Acl.Update.{tag_eq, has_qualifier}

-- The first element that passes a test
abbrev pub first : {A : Type 0} → (A → Bool) → List A → Option A
first test [] = none
first test (x ∷ xs) = let rest = first test xs in if test x then some x else rest

-- The tag is the one looked for, and so is the qualifier, if the tag has one.
abbrev pub matches : Tag → ℕ → Tag → ℕ → Bool
matches tag qual t q = tag_eq tag t && (not (has_qualifier tag) || qual == q)
