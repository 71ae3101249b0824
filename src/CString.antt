-- ===== src/CString.antt =====
-- Byte strings as C holds them: a list of the bytes before the terminating null.
-- `strcmp(a, b) == 0`, `strncmp(a, b, strlen(a)) == 0`, `s[i]`, and the bounded copies of
-- `strncpy` and `snprintf`, as the sources under src/ use them.
use the_linux_programming_in.Prelude.{
  Option, none, some, ◌++◌, if◌then◌else◌, ℕ, zero, suc, ◌-◌, ◌≤◌, ◌<◌, ◌≡◌, refl, Bool, true,
  false, ◌&&◌, List, [], ◌∷◌, arith, length, take, ◌==◌, length-take, take-eq_of_le,
}

-- `strcmp(a, b) == 0`
unfoldable pub str_eq : List ℕ → List ℕ → Bool
str_eq [] [] = true
str_eq [] (y ∷ ys) = false
str_eq (x ∷ xs) [] = false
str_eq (x ∷ xs) (y ∷ ys) = x == y && str_eq xs ys

pub str_eq_sound : (a b : List ℕ) → str_eq a b ≡ true → a ≡ b
unfolding str_eq
str_eq_sound [] [] h = refl
str_eq_sound [] (y ∷ ys) h = ground arith
str_eq_sound (x ∷ xs) [] h = ground arith
str_eq_sound (x ∷ xs) (y ∷ ys) h = ground (arith, str_eq_sound xs ys)

pub str_eq_refl : (a : List ℕ) → str_eq a a ≡ true
unfolding str_eq
str_eq_refl [] = refl
str_eq_refl (x ∷ xs) = ground (arith, str_eq_refl xs)

-- `strncmp(a, b, strlen(a)) == 0`
unfoldable pub starts_with : List ℕ → List ℕ → Bool
starts_with [] b = true
starts_with (x ∷ xs) [] = false
starts_with (x ∷ xs) (y ∷ ys) = x == y && starts_with xs ys

-- `s[i]`, the terminating null included
unfoldable pub char_at : List ℕ → ℕ → ℕ
char_at [] i = 0
char_at (x ∷ xs) zero = x
char_at (x ∷ xs) (suc i) = char_at xs i

-- `strncpy(dest, s, n)` into an array of `n` bytes: at most `n` bytes are kept.
unfoldable pub strncpy : ℕ → List ℕ → List ℕ
strncpy n s = take n s

-- `snprintf(dest, n, …)`: at most `n - 1` bytes of the output are kept.
unfoldable pub snprintf : ℕ → List ℕ → List ℕ
snprintf n s = take (n - 1) s

-- No byte of the string is the null that would end it.
abbrev pub HasNoNull : List ℕ → Type 0
HasNoNull [] = Unit
HasNoNull (x ∷ xs) = (0 < x) × HasNoNull xs

pub length-strncpy : (n : ℕ) (s : List ℕ) → length (strncpy n s) ≤ n
unfolding strncpy
length-strncpy n s = omega (arith, length-take n s)

pub strncpy_fits : (n : ℕ) (s : List ℕ) → length s ≤ n → strncpy n s ≡ s
unfolding strncpy
strncpy_fits n s h = take-eq_of_le n s h

pub snprintf_fits : (n : ℕ) (s : List ℕ) → length s < n → snprintf n s ≡ s
unfolding snprintf
snprintf_fits n s h = take-eq_of_le (n - 1) s (omega arith)

-- `p = strchr(s, c)`, then `*p = '\0'` where it was found: what is left of the string, and what follows
-- the byte
unfoldable pub cut : ℕ → List ℕ → List ℕ × Option (List ℕ)
cut c [] = ([], none)
cut c (x ∷ xs) = let rest = cut c xs in if x == c then ([], some xs) else (x ∷ rest.0, rest.1)

-- The byte `c` is not in the string.
abbrev pub Lacks : ℕ → List ℕ → Type 0
Lacks c [] = Unit
Lacks c (x ∷ xs) = ((x == c) ≡ false) × Lacks c xs

pub cut_found : (c : ℕ) (a b : List ℕ) → Lacks c a → cut c (a ++ c ∷ b) ≡ (a, some b)
unfolding cut
cut_found c [] b h = let same : (c == c) ≡ true = ground arith in rw same
cut_found c (x ∷ a) b h = rw (h.0, cut_found c a b h.1)

pub cut_missing : (c : ℕ) (a : List ℕ) → Lacks c a → cut c a ≡ (a, none)
unfolding cut
cut_missing c [] h = refl
cut_missing c (x ∷ a) h = rw (h.0, cut_missing c a h.1)

pub Lacks-append : (c : ℕ) (a b : List ℕ) → Lacks c a → Lacks c b → Lacks c (a ++ b)
Lacks-append c [] b h k = k
Lacks-append c (x ∷ a) b h k = (h.0, Lacks-append c a b h.1 k)
