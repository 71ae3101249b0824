-- ===== src/Inotify/Invariant/Slots.antt =====
-- The steps that the branches of `processNextInotifyEvent` of inotify/inotify_dtree.c share, on the
-- invariant: looking up a slot, marking it, zapping a root, the checks.
use the_linux_programming_in.Prelude.{
  ℕ, zero, suc, ◌+◌, ◌≤◌, ◌≡◌, refl, ap, Option, none, some, List, [], ◌∷◌, arith, ◌==◌, ◌⊎◌,
  length, set, get_elem?, length-set, inl, inr,
}
use the_linux_programming_in.Inotify.Cache.{FilePath, Watch, is_live, find_watch}
use the_linux_programming_in.Inotify.Cache.View.{find_watch-some}
use the_linux_programming_in.Inotify.Cache.Update.{mark_cache_slot_empty-IsUnique}
use the_linux_programming_in.Inotify.Roots.{
  find_root_dir_path, zap_root_dir_path, zap_found, zap_slot,
}
use the_linux_programming_in.Inotify.Watcher.{Stat, Kernel, Watcher, M}
use the_linux_programming_in.Inotify.Watcher.Rules.{
  Returns, Returns-bind, Returns-if, Keeps, Keeps-pure,
}
use the_linux_programming_in.Inotify.Tree.{
  dump_cache_to_log, create_stop_file_and_abort, checked, find_watch_checked, on_stat, check_slots,
  check_cache_consistency,
}
use the_linux_programming_in.Inotify.Events.{entry_at, found_entry, mark_slot}
use the_linux_programming_in.Inotify.Invariant.{speaks, zapped, IsConsistent}
use the_linux_programming_in.Inotify.Invariant.Trees.{IsConsistent-same, IsConsistent-kernel}

zapped-set :
    (ps : List (Option FilePath)) (path : FilePath) (j : ℕ)
    → find_root_dir_path ps path ≡ some j
    → zapped (set ps j none) ≡ zapped ps + 1
unfolding find_root_dir_path
zapped-set [] path j h = ground arith
zapped-set (none ∷ ps) path zero h = ground arith
zapped-set (none ∷ ps) path (suc j) h = ground (arith, zapped-set ps path j)
zapped-set (some p ∷ ps) path zero h = omega arith
zapped-set (some p ∷ ps) path (suc j) h = ground (arith, zapped-set ps path j)

zapped-le : (ps : List (Option FilePath)) → zapped ps ≤ length ps
zapped-le [] = omega arith
zapped-le (none ∷ ps) = omega (arith, zapped-le ps)
zapped-le (some p ∷ ps) = omega (arith, zapped-le ps)

-- A slot at which there is an entry
abbrev pub HasSlot : Option ℕ → List Watch → Type 0
HasSlot none c = ⊥
HasSlot (some j) c = (e : Watch) × (get_elem? c j ≡ some e)

module _ {K : Type 0} where
  -- The invariant, with the cache as it was.
  abbrev pub AtCache : List Watch → Watcher K → Type 0
  AtCache c v = IsConsistent v × (v.cache ≡ c)

  on_stat-Keeps :
      (st : Option Stat) (m : M K (Unit {0}))
      → Keeps IsConsistent m
      → Keeps IsConsistent (on_stat st m)
  unfolding on_stat
  on_stat-Keeps none m k = k
  on_stat-Keeps (some sb) m k = record {
    at = λ w h. Returns-if _ sb.is_dir _ _ (λ _. k.at w h) (λ _. tt);
  }

  zap_found-Returns :
      (path : FilePath) (c : List Watch) (w : Watcher K) (o : Option ℕ)
      → AtCache c w
      → find_root_dir_path w.root_dir_paths path ≡ o
      → Returns (λ _ v. AtCache c v) (zap_found o w)
  unfolding zap_found zap_slot
  zap_found-Returns path c w none h e = tt
  zap_found-Returns path c w (some j) h e =
      Returns-if _ (w.ignore_root_dirs + 1 == length w.root_dir_paths) _ _ (λ _. tt)
        (λ more. (
          record {
            unique = λ n. h.0.unique n;
            counted = omega (arith, h.0.counted, zapped-set w.root_dir_paths path j e);
            watching = ground (arith, h.0.watching, length-set w.root_dir_paths j none);
            quiet = h.0.quiet;
            sized = h.0.sized;
          },
          h.1,
        ))

  -- `zapRootDirPath` keeps the count of the zapped roots, and ends the program with the last of them.
  pub zap_root_dir_path-Keeps :
      (path : FilePath) (c : List Watch) → Keeps (AtCache c) (zap_root_dir_path {K = K} path)
  unfolding zap_root_dir_path
  zap_root_dir_path-Keeps path c = record { at = λ w h. zap_found-Returns path c w _ h refl }

  checked-Returns :
      (wd : Option ℕ) (w : Watcher K) (o : Option ℕ)
      → IsConsistent w
      → find_watch w.cache wd ≡ o
      → Returns (λ r v. (v ≡ w) × ((r ≡ none) ⊎ HasSlot r w.cache)) (checked o w)
  unfolding checked create_stop_file_and_abort dump_cache_to_log
  checked-Returns wd w none h e =
      Returns-if _ w.abort_on_cache_problem _ _ (λ a. absurd (ground (arith, a, h.quiet)))
        (λ _. (refl, inl refl))
  checked-Returns wd w (some j) h e =
      let r = find_watch-some w.cache wd j e in (refl, inr (r.0, r.1))

  -- `findWatchChecked` returns -1 or a slot of the array, unless it aborts.
  pub find_watch_checked-Returns :
      (wd : Option ℕ) (w : Watcher K)
      → IsConsistent w
      → Returns (λ r v. (v ≡ w) × ((r ≡ none) ⊎ HasSlot r w.cache)) (find_watch_checked wd w)
  unfolding find_watch_checked
  find_watch_checked-Returns wd w h = checked-Returns wd w _ h refl

  found_entry-Returns :
      (w : Watcher K) (o : Option Watch) (e : Watch)
      → o ≡ some e
      → Returns (λ r v. v ≡ w) (found_entry o w)
  unfolding found_entry
  found_entry-Returns w none e h = ground arith
  found_entry-Returns w (some e') e h = refl

  pub entry_at-Returns :
      (slot : Option ℕ) (w : Watcher K) (there : HasSlot slot w.cache)
      → Returns (λ r v. v ≡ w) (entry_at slot w)
  unfolding entry_at
  entry_at-Returns none w there = absurd there
  entry_at-Returns (some j) w there = found_entry-Returns w _ there.0 there.1

  -- Marking a slot of the array empty keeps the invariant.
  pub mark_slot-Returns :
      (slot : Option ℕ) (w : Watcher K)
      → IsConsistent w
      → HasSlot slot w.cache
      → Returns (λ _ v. IsConsistent v) (mark_slot slot w)
  unfolding mark_slot
  mark_slot-Returns none w h there = absurd there
  mark_slot-Returns (some j) w h there =
      Returns-bind _ _ (entry_at (some j) w) _ (entry_at-Returns (some j) w there) (λ e v same.
        IsConsistent-same w _ (ap (λ (u : Watcher K). u.ignore_root_dirs) same)
          (ap (λ (u : Watcher K). u.root_dir_paths) same) (ap (λ (u : Watcher K). speaks u) same)
          (ap (λ (u : Watcher K). u.read_buffer_size) same)
          (rw same (mark_cache_slot_empty-IsUnique w.cache j there.0 there.1 h.unique)) h)

module _ (k : Kernel) where
  pub check_slots-Keeps : (c : List Watch) → Keeps IsConsistent (check_slots k c)
  unfolding check_slots
  check_slots-Keeps [] = Keeps-pure tt
  check_slots-Keeps (e ∷ es) = record {
    at = λ w h.
        Returns-if _ (is_live e.wd) _ _
          (λ _.
            (on_stat-Keeps _ (check_slots k es) (check_slots-Keeps es)).at _
              (IsConsistent-kernel w _ h))
          (λ _. (check_slots-Keeps es).at w h);
  }

  pub check_cache_consistency-Keeps : Keeps IsConsistent (check_cache_consistency k)
  unfolding check_cache_consistency
  check_cache_consistency-Keeps = record { at = λ w h. (check_slots-Keeps w.cache).at w h }
