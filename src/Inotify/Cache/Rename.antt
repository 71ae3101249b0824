-- ===== src/Inotify/Cache/Rename.antt =====
-- `rewriteCachedPaths` of inotify/inotify_dtree.c, and the test for a subtree that it shares with
-- `zapSubtree`.
use the_linux_programming_in.Prelude.{
  ◌↔◌, ℕ, zero, suc, ◌<◌, ◌≡◌, refl, sym, ap, ◌∙◌, ◌⊎◌, inl, inr, true, some, List, [], ◌∷◌, ◌++◌,
  arith, length, drop, ◌==◌, ◌||◌, Bool-cases, drop-append,
}
use mathlib.Core.List.{append-nil}
use the_linux_programming_in.CString.{starts_with, char_at, HasNoNull, strncpy_fits, snprintf_fits}
use the_linux_programming_in.Inotify.Cache.{
  FilePath, Watch, path_max, in_subtree, rewrite_path, rewrite_loop, rewrite_cached_paths,
}
use the_linux_programming_in.Inotify.Cache.View.{watches, path_of, IsUnique}

-- `path` is the directory `top`, or lies below it.
abbrev pub IsUnder : FilePath → FilePath → Type 0
IsUnder top path = (path ≡ top) ⊎ ((rest : FilePath) × (path ≡ top ++ b'/' ∷ rest))

starts_with-drop : (a b : FilePath) → starts_with a b ≡ true → b ≡ a ++ drop (length a) b
unfolding starts_with
starts_with-drop [] b h = refl
starts_with-drop (x ∷ xs) [] h = ground arith
starts_with-drop (x ∷ xs) (y ∷ ys) h = ground (arith, starts_with-drop xs ys)

starts_with-append : (a b : FilePath) → starts_with a (a ++ b) ≡ true
unfolding starts_with
starts_with-append [] b = refl
starts_with-append (x ∷ xs) b = ground (arith, starts_with-append xs b)

char_at-drop : (k : ℕ) (b : FilePath) → char_at b k ≡ char_at (drop k b) 0
unfolding char_at
char_at-drop zero b = refl
char_at-drop (suc k) [] = refl
char_at-drop (suc k) (x ∷ xs) = char_at-drop k xs

HasNoNull-drop : (k : ℕ) (b : FilePath) → HasNoNull b → HasNoNull (drop k b)
HasNoNull-drop zero b h = h
HasNoNull-drop (suc k) [] h = h
HasNoNull-drop (suc k) (x ∷ xs) h = HasNoNull-drop k xs h.1

rest_cases :
    (r : FilePath)
    → HasNoNull r
    → ((char_at r 0 == b'/' || char_at r 0 == 0) ≡ true)
    → (r ≡ []) ⊎ ((rest : FilePath) × (r ≡ b'/' ∷ rest))
unfolding char_at
rest_cases [] h t = inl refl
rest_cases (x ∷ xs) h t = inr (xs, ground arith)

pub in_subtree-IsUnder :
    (top path : FilePath) → HasNoNull path → in_subtree top path ≡ true → IsUnder top path
unfolding in_subtree
in_subtree-IsUnder top path n h =
    let r = drop (length top) path in
    let whole = starts_with-drop top path (ground arith) in
    elim (rest_cases r (HasNoNull-drop (length top) path n)
      (ground (arith, char_at-drop (length top) path))) [
        | inl e ↦ inl (whole ∙ ap (λ t. top ++ t) e ∙ append-nil top)
        | inr (rest, e) ↦ inr (rest, whole ∙ ap (λ t. top ++ t) e)
      ]

at_end :
    (top r : FilePath)
    → (char_at r 0 == b'/' || char_at r 0 == 0) ≡ true
    → in_subtree top (top ++ r) ≡ true
unfolding in_subtree
at_end top r h =
    ground
      (arith, starts_with-append top r, char_at-drop (length top) (top ++ r), drop-append top r)

pub IsUnder-in_subtree : (top path : FilePath) → IsUnder top path → in_subtree top path ≡ true
unfolding char_at
IsUnder-in_subtree top path (inl e) =
    rw e (ap (in_subtree top) (sym (append-nil top)) ∙ at_end top [] refl)
IsUnder-in_subtree top path (inr (rest, e)) = rw e (at_end top (b'/' ∷ rest) refl)

-- A path without null bytes passes the byte tests of the two loops exactly if it is the directory or lies
-- below it.
pub in_subtree_iff :
    (top path : FilePath) → HasNoNull path → (in_subtree top path ≡ true) ↔ IsUnder top path
in_subtree_iff top path n = (in_subtree-IsUnder top path n, IsUnder-in_subtree top path)

-- `rewriteCachedPaths` changes no descriptor.
watches-rewrite_loop :
    (f p : FilePath) (c : List Watch) (n : ℕ) → watches n (rewrite_loop f p c) ≡ watches n c
unfolding watches rewrite_loop
watches-rewrite_loop f p [] n = refl
watches-rewrite_loop f p (e ∷ es) n = ground (arith, watches-rewrite_loop f p es n)

path_of-rewrite_loop :
    (f p : FilePath) (c : List Watch) (n : ℕ) (q : FilePath)
    → path_of c n ≡ some q
    → path_of (rewrite_loop f p c) n ≡ some (rewrite_path f p q)
unfolding path_of rewrite_loop
path_of-rewrite_loop f p [] n q h = ground arith
path_of-rewrite_loop f p (e ∷ es) n q h = ground (arith, path_of-rewrite_loop f p es n q)

rewrite_path_under :
    (old new r : FilePath)
    → (r ≡ []) ⊎ ((rest : FilePath) × (r ≡ b'/' ∷ rest))
    → length (new ++ r) < path_max
    → rewrite_path old new (old ++ r) ≡ new ++ r
unfolding rewrite_path
rewrite_path_under old new r k fits =
    rw (under, drop-append old r, snprintf_fits path_max (new ++ r) fits)
      (strncpy_fits path_max (new ++ r) (omega arith))
  where
    is_under : (r ≡ []) ⊎ ((rest : FilePath) × (r ≡ b'/' ∷ rest)) → IsUnder old (old ++ r)
    is_under (inl e) = inl (ap (λ t. old ++ t) e ∙ append-nil old)
    is_under (inr (rest, e)) = inr (rest, ap (λ t. old ++ t) e)

    under : in_subtree old (old ++ r) ≡ true
    under = IsUnder-in_subtree old (old ++ r) (is_under k)

rewrite_path_outside :
    (old new q : FilePath) → HasNoNull q → ¬ IsUnder old q → rewrite_path old new q ≡ q
unfolding rewrite_path
rewrite_path_outside old new q n out = elim (Bool-cases (in_subtree old q)) [
  | inl t ↦ absurd (out (in_subtree-IsUnder old q n t))
  | inr f ↦ rw f
]

module _ (c : List Watch) (op on np nn : FilePath) where
  pub rewrite_cached_paths-IsUnique : IsUnique c → IsUnique (rewrite_cached_paths c op on np nn)
  unfolding rewrite_cached_paths
  rewrite_cached_paths-IsUnique u n = omega (arith, u n, watches-rewrite_loop _ _ c n)

  -- If the old and the new joined name fit, the entry of the renamed directory, and of each
  -- directory below it, is kept under its new name, where that fits too.
  pub rewrite_cached_paths_moves :
      length (op ++ b'/' ∷ on) < path_max
      → length (np ++ b'/' ∷ nn) < path_max
      → (n : ℕ) (r : FilePath) → (r ≡ []) ⊎ ((rest : FilePath) × (r ≡ b'/' ∷ rest))
      → length ((np ++ b'/' ∷ nn) ++ r) < path_max
      → path_of c n ≡ some ((op ++ b'/' ∷ on) ++ r)
      → path_of (rewrite_cached_paths c op on np nn) n ≡ some ((np ++ b'/' ∷ nn) ++ r)
  unfolding rewrite_cached_paths
  rewrite_cached_paths_moves ofits nfits n r k fits h =
      rw
        (
          snprintf_fits path_max (op ++ b'/' ∷ on) ofits,
          snprintf_fits path_max (np ++ b'/' ∷ nn) nfits,
        )
        (path_of-rewrite_loop _ _ c n _ h
          ∙ ap some (rewrite_path_under (op ++ b'/' ∷ on) _ r k fits))

  -- If the old joined name fits, an entry whose path has no null byte and is neither the renamed
  -- directory nor below it keeps its path.
  pub rewrite_cached_paths_keeps :
      length (op ++ b'/' ∷ on) < path_max
      → (n : ℕ) (q : FilePath) → HasNoNull q
      → ¬ IsUnder (op ++ b'/' ∷ on) q
      → path_of c n ≡ some q
      → path_of (rewrite_cached_paths c op on np nn) n ≡ some q
  unfolding rewrite_cached_paths
  rewrite_cached_paths_keeps ofits n q nn' out h =
      rw (snprintf_fits path_max (op ++ b'/' ∷ on) ofits)
        (path_of-rewrite_loop _ _ c n _ h ∙ ap some (rewrite_path_outside _ _ q nn' out))
