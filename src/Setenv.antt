-- ===== src/Setenv.antt =====
-- proc/setenv.c: setenv() and unsetenv() over `environ`, a list of strings, with the getenv() and
-- putenv() of the C library.
use the_linux_programming_in.Prelude.{
  ℕ, suc, ◌+◌, ◌≡◌, inl, inr, refl, ap, ◌∙◌, Bool, true, false, not, ◌&&◌, ◌||◌, Option, none, some,
  List, [], ◌∷◌, ◌++◌, drop, length, arith, ◌==◌, if◌then◌else◌, Bool-cases,
}
use the_linux_programming_in.CString.{
  str_eq, starts_with, char_at, cut, Lacks, cut_found, cut_missing, str_eq_sound,
}

-- `strncmp(*ep, name, len) == 0 && (*ep)[len] == '='`
unfoldable pub is_entry : List ℕ → List ℕ → Bool
unfolding starts_with char_at
is_entry name e = starts_with name e && char_at e (length name) == b'='

-- The loop of `unsetenv`: an entry that is found is shifted out, and its place is looked at again.
unfoldable pub remove_entries : List ℕ → List (List ℕ) → List (List ℕ)
unfolding is_entry
remove_entries name [] = []
remove_entries name (e ∷ es) =
    let rest = remove_entries name es in if is_entry name e then rest else e ∷ rest

abbrev pub is_found : {A : Type 0} → Option A → Bool
is_found none = false
is_found (some a) = true

-- `name == NULL || name[0] == '\0' || strchr(name, '=') != NULL`
unfoldable pub is_invalid : Option (List ℕ) → Bool
unfolding cut
is_invalid none = true
is_invalid (some name) = char_at name 0 == 0 || is_found (cut b'=' name).1

abbrev pub the_name : Option (List ℕ) → List ℕ
the_name none = []
the_name (some name) = name

-- -1 with EINVAL is `none`.
unfoldable pub unsetenv : Option (List ℕ) → List (List ℕ) → Option (List (List ℕ))
unfolding is_invalid remove_entries
unsetenv name environ =
    if is_invalid name then none else some (remove_entries (the_name name) environ)

-- getenv(): the value of the first entry of the name
unfoldable pub getenv : List ℕ → List (List ℕ) → Option (List ℕ)
unfolding is_entry
getenv name [] = none
getenv name (e ∷ es) = if is_entry name e then some (drop (length name + 1) e) else getenv name es

-- putenv(): the string takes the place of the first entry of its name, or stands at the end.
unfoldable pub putenv : List ℕ → List (List ℕ) → List (List ℕ)
unfolding is_entry cut
putenv string [] = string ∷ []
putenv string (e ∷ es) =
    let rest = putenv string es in if is_entry (cut b'=' string).0 e then string ∷ es else e ∷ rest

-- The rest of `setenv`, with a name that is valid
unfoldable pub set_valid : List ℕ → Option (List ℕ) → Bool → List (List ℕ) → Option (List (List ℕ))
unfolding getenv putenv remove_entries
set_valid name none overwrite environ = none
set_valid name (some value) overwrite environ =
    if is_found (getenv name environ) && not overwrite
    then some environ
    else some (putenv (name ++ b'=' ∷ value) (remove_entries name environ))

-- The failure of malloc() is not modelled.
unfoldable pub setenv :
    Option (List ℕ) → Option (List ℕ) → Bool → List (List ℕ) → Option (List (List ℕ))
unfolding is_invalid set_valid
setenv name value overwrite environ =
    if is_invalid name then none else set_valid (the_name name) value overwrite environ

-- Names that setenv() takes
pub record IsName (name : List ℕ) : Type 0 where
  pub not_empty : (char_at name 0 == 0) ≡ false
  pub no_equals : Lacks b'=' name

-- A string is an entry of one name only.
is_entry_unique :
    (m n e : List ℕ) → Lacks b'=' m → Lacks b'=' n → is_entry n e ≡ true → is_entry m e ≡ str_eq m n
unfolding is_entry starts_with char_at str_eq
is_entry_unique [] [] e h k p = ground arith
is_entry_unique [] (y ∷ n) [] h k p = ground arith
is_entry_unique [] (y ∷ n) (x ∷ e) h k p = ground (arith, k.0)
is_entry_unique (x ∷ m) [] [] h k p = ground arith
is_entry_unique (x ∷ m) [] (z ∷ e) h k p = ground (arith, h.0)
is_entry_unique (x ∷ m) (y ∷ n) [] h k p = ground arith
is_entry_unique (x ∷ m) (y ∷ n) (z ∷ e) h k p = ground (arith, is_entry_unique m n e h.1 k.1)

is_entry-own : (n v : List ℕ) → is_entry n (n ++ b'=' ∷ v) ≡ true
unfolding is_entry starts_with char_at
is_entry-own [] v = refl
is_entry-own (x ∷ n) v = ground (arith, is_entry-own n v)

drop-own : (n v : List ℕ) → drop (length n + 1) (n ++ b'=' ∷ v) ≡ v
drop-own n v = ground (arith, drop-more n v)
  where
    drop-more : (n v : List ℕ) → drop (suc (length n)) (n ++ b'=' ∷ v) ≡ v
    drop-more [] v = refl
    drop-more (x ∷ n) v = drop-more n v

getenv-remove :
    (m n : List ℕ) (env : List (List ℕ))
    → Lacks b'=' m
    → Lacks b'=' n
    → getenv m (remove_entries n env) ≡ (if str_eq m n then none else getenv m env)
unfolding getenv remove_entries
getenv-remove m n [] h k = ground arith
getenv-remove m n (e ∷ es) h k = elim (Bool-cases (is_entry n e)) [
  | inl p ↦ rw p (ground (arith, getenv-remove m n es h k, is_entry_unique m n e h k p))
  | inr p ↦ elim (Bool-cases (str_eq m n)) [
    | inl q ↦
        let other : is_entry m e ≡ false = ap (λ t. is_entry t e) (str_eq_sound m n q) ∙ p in
        rw (p, q, other) (getenv-remove m n es h k ∙ rw q)
    | inr q ↦ rw (p, q) (ground (arith, getenv-remove m n es h k))
  ]
]

getenv-putenv :
    (m n v : List ℕ) (env : List (List ℕ))
    → Lacks b'=' m
    → Lacks b'=' n
    → getenv m (putenv (n ++ b'=' ∷ v) env) ≡ (if str_eq m n then some v else getenv m env)
unfolding getenv putenv
getenv-putenv m n v [] h k =
    let own = is_entry_unique m n (n ++ b'=' ∷ v) h k (is_entry-own n v) in
    elim (Bool-cases (str_eq m n)) [
      | inl q ↦ rw (own, q, str_eq_sound m n q) (ap some (drop-own n v))
      | inr q ↦ rw (own, q)
    ]
getenv-putenv m n v (e ∷ es) h k =
    let own = is_entry_unique m n (n ++ b'=' ∷ v) h k (is_entry-own n v) in
    let name = cut_found b'=' n v k in
    elim (Bool-cases (is_entry n e)) [
      | inl p ↦ elim (Bool-cases (str_eq m n)) [
        | inl q ↦ rw (name, p, own, q, str_eq_sound m n q) (ap some (drop-own n v))
        | inr q ↦ rw (name, p, own, is_entry_unique m n e h k p, q)
      ]
      | inr p ↦ elim (Bool-cases (str_eq m n)) [
        | inl q ↦
            let other : is_entry m e ≡ false = ap (λ t. is_entry t e) (str_eq_sound m n q) ∙ p in
            rw (name, p, other, q) (getenv-putenv m n v es h k ∙ rw q)
        | inr q ↦ rw (name, p, q) (ground (arith, getenv-putenv m n v es h k))
      ]
    ]

is_invalid-name : (n : List ℕ) → IsName n → is_invalid (some n) ≡ false
unfolding is_invalid
is_invalid-name n h = rw (h.not_empty, cut_missing b'=' n h.no_equals)

-- setenv() with a valid name and a value returns 0, and then getenv() gives for that name the new value,
-- or the old one, if there was one and `overwrite` is 0, and for each other name what it gave before, a
-- name having no equals sign.
pub setenv_lem :
    (m n v : List ℕ) (overwrite : Bool) (env : List (List ℕ))
    → Lacks b'=' m
    → IsName n
    → (env' : List (List ℕ)) × (setenv (some n) (some v) overwrite env ≡ some env')
      × (getenv m env' ≡ (
          if str_eq m n && not (is_found (getenv n env) && not overwrite)
          then some v
          else getenv m env))
unfolding setenv set_valid
setenv_lem m n v overwrite env h k = elim (Bool-cases (is_found (getenv n env) && not overwrite)) [
  | inl p ↦ (env, rw (is_invalid-name n k, p), rw p (ground arith))
  | inr p ↦ (
    putenv (n ++ b'=' ∷ v) (remove_entries n env),
    rw (is_invalid-name n k, p),
    rw p (
        getenv-putenv m n v (remove_entries n env) h k.no_equals
        ∙ rw (getenv-remove m n env h k.no_equals) (ground arith)),
  )
]

-- unsetenv() with a valid name returns 0 and leaves no value for that name, however many entries it
-- had, and the value of each other name, a name having no equals sign.
pub unsetenv_lem :
    (m n : List ℕ) (env : List (List ℕ))
    → Lacks b'=' m
    → IsName n
    → (env' : List (List ℕ)) × (unsetenv (some n) env ≡ some env')
      × (getenv m env' ≡ (if str_eq m n then none else getenv m env))
unfolding unsetenv
unsetenv_lem m n env h k =
    (remove_entries n env, rw (is_invalid-name n k), getenv-remove m n env h k.no_equals)
