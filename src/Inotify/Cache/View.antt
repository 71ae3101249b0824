-- ===== src/Inotify/Cache/View.antt =====
-- The cache of inotify/inotify_dtree.c as a finite map from watch descriptors to paths, and how often
-- a descriptor is held.
use the_linux_programming_in.Prelude.{
  ℕ, zero, suc, ◌+◌, ◌≤◌, ◌<◌, ◌≡◌, refl, true, Option, none, some, List, [], ◌∷◌, ◌++◌, arith,
  length, set, get_elem?, replicate, if◌then◌else◌,
}
use the_linux_programming_in.Inotify.Cache.{FilePath, Watch, wd_eq, empty_watch, find_watch}

abbrev pub holds : ℕ → Watch → ℕ
holds n e = if wd_eq e.wd (some n) then 1 else 0

-- The slots that hold descriptor `n`
unfoldable pub watches : ℕ → List Watch → ℕ
watches n [] = 0
watches n (e ∷ es) = holds n e + watches n es

-- The path that is cached for descriptor `n`
unfoldable pub path_of : List Watch → ℕ → Option FilePath
path_of [] n = none
path_of (e ∷ es) n = if wd_eq e.wd (some n) then some e.path else path_of es n

-- No descriptor is held by two slots.
abbrev pub IsUnique : List Watch → Type 0
IsUnique cache = (n : ℕ) → watches n cache ≤ 1

pub wd_eq_sound : (a b : Option ℕ) → wd_eq a b ≡ true → a ≡ b
wd_eq_sound none none h = refl
wd_eq_sound none (some b) h = ground arith
wd_eq_sound (some a) none h = ground arith
wd_eq_sound (some a) (some b) h = ground arith

pub wd_eq_refl : (a : Option ℕ) → wd_eq a a ≡ true
wd_eq_refl none = refl
wd_eq_refl (some a) = ground arith

pub find_watch-none : (c : List Watch) (n : ℕ) → find_watch c (some n) ≡ none → watches n c ≡ 0
unfolding find_watch watches
find_watch-none [] n h = refl
find_watch-none (e ∷ es) n h = ground (arith, find_watch-none es n)

pub find_watch-some :
    (c : List Watch) (wd : Option ℕ) (j : ℕ)
    → find_watch c wd ≡ some j
    → (e : Watch) × (get_elem? c j ≡ some e) × (e.wd ≡ wd) × (j < length c)
unfolding find_watch
find_watch-some [] wd j h = ground arith
find_watch-some (e ∷ es) wd zero h = (e, refl, ground (arith, wd_eq_sound e.wd wd), omega arith)
find_watch-some (e ∷ es) wd (suc j) h =
    let r = find_watch-some es wd j (ground arith) in (r.0, r.1, r.2, omega (arith, r.3))

pub watches-set :
    (c : List Watch) (j n : ℕ) (e old : Watch)
    → get_elem? c j ≡ some old
    → watches n (set c j e) + holds n old ≡ watches n c + holds n e
unfolding watches
watches-set [] j n e old h = ground arith
watches-set (x ∷ xs) zero n e old h = ground arith
watches-set (x ∷ xs) (suc j) n e old h = omega (arith, watches-set xs j n e old h)

pub watches-append : (n : ℕ) (c d : List Watch) → watches n (c ++ d) ≡ watches n c + watches n d
unfolding watches
watches-append n [] d = omega arith
watches-append n (x ∷ xs) d = omega (arith, watches-append n xs d)

pub watches-replicate : (n k : ℕ) → watches n (replicate k empty_watch) ≡ 0
unfolding watches
watches-replicate n zero = refl
watches-replicate n (suc k) = omega (arith, watches-replicate n k)

pub path_of-none : (c : List Watch) (n : ℕ) → watches n c ≡ 0 → path_of c n ≡ none
unfolding path_of watches
path_of-none [] n h = refl
path_of-none (e ∷ es) n h = ground (arith, path_of-none es n)

pub holds-le-watches :
    (c : List Watch) (j n : ℕ) (e : Watch) → get_elem? c j ≡ some e → holds n e ≤ watches n c
unfolding watches
holds-le-watches [] j n e h = ground arith
holds-le-watches (x ∷ xs) zero n e h = ground arith
holds-le-watches (x ∷ xs) (suc j) n e h = omega (arith, holds-le-watches xs j n e h)

-- A write to a slot, on the map: the new entry's descriptor gets its path, the old one's goes.
pub path_of-set :
    (c : List Watch) (j n : ℕ) (e old : Watch)
    → get_elem? c j ≡ some old
    → watches n (set c j e) ≤ 1
    → watches n c ≤ 1
    → path_of (set c j e) n ≡ (
        if wd_eq e.wd (some n)
        then some e.path
        else if wd_eq old.wd (some n)
        then none
        else path_of c n)
unfolding path_of watches
path_of-set [] j n e old h u v = ground arith
path_of-set (x ∷ xs) zero n e old h u v = ground (arith, path_of-none xs n)
path_of-set (x ∷ xs) (suc j) n e old h u v = ground (
  arith,
  path_of-set xs j n e old,
  watches-set xs j n e old,
  path_of-none xs n,
  holds-le-watches xs j n old,
)

pub path_of-append : (c d : List Watch) (n : ℕ) → watches n d ≡ 0 → path_of (c ++ d) n ≡ path_of c n
unfolding path_of
path_of-append [] d n h = path_of-none d n h
path_of-append (e ∷ es) d n h = ground (arith, path_of-append es d n)
