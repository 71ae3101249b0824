-- ===== src/Inotify/Tree/Zap.antt =====
-- `zapSubtree` of inotify/inotify_dtree.c on the map that the cache holds.
use the_linux_programming_in.Prelude.{
  ℕ, ◌+◌, ◌≤◌, ◌≡◌, refl, ap, ◌&&◌, false, Option, none, some, List, [], ◌∷◌, arith, if◌then◌else◌,
  Bool-cases, ◌⊎◌, inl, inr,
}
use the_linux_programming_in.CString.{HasNoNull}
use the_linux_programming_in.Inotify.Cache.{FilePath, Watch, is_live, in_subtree}
use the_linux_programming_in.Inotify.Cache.View.{watches, path_of}
use the_linux_programming_in.Inotify.Cache.Rename.{IsUnder, in_subtree-IsUnder}
use the_linux_programming_in.Inotify.Watcher.{Kernel, Watcher}
use the_linux_programming_in.Inotify.Watcher.Rules.{Returns}
use the_linux_programming_in.Inotify.Tree.{zap_slots, zap_subtree, descriptor}

-- The live slots of a subtree
abbrev pub live_under : FilePath → List Watch → ℕ
live_under pn [] = 0
live_under pn (e ∷ es) = (if is_live e.wd && in_subtree pn e.path then 1 else 0) + live_under pn es

-- What is left of an entry's path where the subtree was zapped
abbrev left_of : FilePath → Option FilePath → Option FilePath
left_of pn none = none
left_of pn (some q) = if in_subtree pn q then none else some q

module _ (k : Kernel) (fd : ℕ) (pn : FilePath) where
  -- Zapping slots takes descriptors away, and adds none.
  pub watches-zap_slots :
      (c : List Watch) (cnt : ℕ) (s : k.State) (n : ℕ)
      → watches n (zap_slots k fd pn c cnt s).slots ≤ watches n c
  unfolding zap_slots watches
  watches-zap_slots [] cnt s n = omega arith
  watches-zap_slots (e ∷ es) cnt s n = ground (
    arith,
    watches-zap_slots es cnt s n,
    watches-zap_slots es (cnt + 1) (k.inotify_rm_watch fd (descriptor e.wd) s).1 n,
  )

  zap_slots-cnt :
      (c : List Watch) (cnt : ℕ) (s : k.State) (m : ℕ)
      → (zap_slots k fd pn c cnt s).cnt ≡ some m
      → m ≡ cnt + live_under pn c
  unfolding zap_slots
  zap_slots-cnt [] cnt s m h = ground arith
  zap_slots-cnt (e ∷ es) cnt s m h = ground (
    arith,
    zap_slots-cnt es cnt s m,
    zap_slots-cnt es (cnt + 1) (k.inotify_rm_watch fd (descriptor e.wd) s).1 m,
  )

  -- A path outside the subtree stays, also where the loop has stopped at a failure.
  path_of-zap_slots_outside :
      (c : List Watch) (cnt : ℕ) (s : k.State) (n : ℕ) (q : FilePath)
      → in_subtree pn q ≡ false
      → path_of c n ≡ some q
      → path_of (zap_slots k fd pn c cnt s).slots n ≡ some q
  unfolding zap_slots path_of
  path_of-zap_slots_outside [] cnt s n q o h = h
  path_of-zap_slots_outside (e ∷ es) cnt s n q o h =
      let s' = (k.inotify_rm_watch fd (descriptor e.wd) s).1 in
      ground (
        arith,
        path_of-zap_slots_outside es cnt s n q,
        path_of-zap_slots_outside es (cnt + 1) s' n q,
      )

  counted_if :
      (c : List Watch) (s : k.State) (o : Option ℕ)
      → (zap_slots k fd pn c 0 s).cnt ≡ o
      → (o ≡ none) ⊎ (o ≡ some (live_under pn c))
  counted_if c s none e = inl refl
  counted_if c s (some m) e = inr (ap some (omega (arith, zap_slots-cnt c 0 s m e)))

  -- `zapSubtree` returns -1 or the number of the live slots of the subtree.
  pub zap_subtree_counts :
      (w : Watcher k.State)
      → Returns (λ r v. (r ≡ none) ⊎ (r ≡ some (live_under pn w.cache))) (zap_subtree k fd pn w)
  unfolding zap_subtree
  zap_subtree_counts w = counted_if w.cache w.kernel _ refl

  -- A descriptor whose path has no null byte and is neither the directory of `zapSubtree` nor below
  -- it keeps its path, whatever is returned.
  pub zap_subtree_keeps :
      (w : Watcher k.State) (n : ℕ) (q : FilePath)
      → HasNoNull q
      → ¬ IsUnder pn q
      → path_of w.cache n ≡ some q
      → Returns (λ r v. path_of v.cache n ≡ some q) (zap_subtree k fd pn w)
  unfolding zap_subtree
  zap_subtree_keeps w n q nn out h = elim (Bool-cases (in_subtree pn q)) [
    | inl t ↦ absurd (out (in_subtree-IsUnder pn q nn t))
    | inr f ↦ path_of-zap_slots_outside w.cache 0 w.kernel n q f h
  ]
