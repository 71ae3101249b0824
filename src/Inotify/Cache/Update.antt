-- ===== src/Inotify/Cache/Update.antt =====
-- `addWatchToCache` and `markCacheSlotEmpty` of inotify/inotify_dtree.c on the map that the cache holds.
use the_linux_programming_in.Prelude.{
  ℕ, zero, suc, ◌+◌, ◌≤◌, ◌≡◌, refl, none, some, List, [], ◌∷◌, ◌++◌, arith, length, get_elem?,
  replicate, if◌then◌else◌, ◌==◌, Option-cases, inl, inr, length-append,
}
use the_linux_programming_in.CString.{strncpy}
use the_linux_programming_in.Inotify.Cache.{
  FilePath, Watch, wd_eq, empty_watch, path_max, find_watch, mark_cache_slot_empty, alloc_incr,
  find_empty_cache_slot, add_watch_to_cache,
}
use the_linux_programming_in.Inotify.Cache.View.{
  holds, watches, path_of, IsUnique, find_watch-none, find_watch-some, watches-set, watches-append,
  watches-replicate, path_of-set, path_of-append,
}

get_elem?-grow :
    (c : List Watch) (k : ℕ)
    → get_elem? (c ++ replicate (suc k) empty_watch) (length c) ≡ some empty_watch
get_elem?-grow [] k = refl
get_elem?-grow (x ∷ xs) k = get_elem?-grow xs k

get_elem?-append :
    (c d : List Watch) (j : ℕ) (e : Watch) → get_elem? c j ≡ some e → get_elem? (c ++ d) j ≡ some e
get_elem?-append [] d j e h = ground arith
get_elem?-append (x ∷ xs) d zero e h = h
get_elem?-append (x ∷ xs) d (suc j) e h = get_elem?-append xs d j e h

-- What `findEmptyCacheSlot` promises: a slot of the array that is unused, the rest as it was.
pub record EmptySlot (c : List Watch) (slot : ℕ) (room : List Watch) : Type 0 where
  pub unused : (old : Watch) × (get_elem? room slot ≡ some old) × (old.wd ≡ none)
  pub kept : (j : ℕ) (e : Watch) → get_elem? c j ≡ some e → get_elem? room j ≡ some e
  pub same_watches : (n : ℕ) → watches n room ≡ watches n c
  pub same_paths : (n : ℕ) → path_of room n ≡ path_of c n
  pub longer : length c ≤ length room

pub find_empty_cache_slot-EmptySlot :
    (c : List Watch) → EmptySlot c (find_empty_cache_slot c).0 (find_empty_cache_slot c).1
unfolding find_empty_cache_slot
find_empty_cache_slot-EmptySlot c = elim (Option-cases (find_watch c none)) [
  | inl full ↦
      rw (full, find_empty_cache_slot)
        (record {
          unused = (empty_watch, get_elem?-grow c 199, refl);
          kept = get_elem?-append c _;
          same_watches = λ n. omega (
            arith,
            watches-append n c (replicate alloc_incr empty_watch),
            watches-replicate n alloc_incr,
          );
          same_paths = λ n. path_of-append c _ n (watches-replicate n alloc_incr);
          longer = omega (arith, length-append c (replicate alloc_incr empty_watch));
        })
  | inr (j, found) ↦
      rw (found, find_empty_cache_slot)
        (let r = find_watch-some c none j found in
          record {
            unused = (r.0, r.1, r.2);
            kept = λ j e h. h;
            same_watches = λ n. refl;
            same_paths = λ n. refl;
            longer = omega arith;
          })
]

module _ (c : List Watch) (w : ℕ) (p : FilePath) where
  abbrev new_entry : Watch
  new_entry = record { wd = some w; path = strncpy path_max p }

  watches-add : (n : ℕ) → watches n (add_watch_to_cache c w p).1 ≡ watches n c + holds n new_entry
  unfolding add_watch_to_cache
  watches-add n =
      let s = find_empty_cache_slot-EmptySlot c in
      let (old, at, free) = s.unused in
      ground (
        arith,
        s.same_watches n,
        watches-set (find_empty_cache_slot c).1 (find_empty_cache_slot c).0 n new_entry old at,
      )

  -- Adding a descriptor that is not in the cache keeps the descriptors of the slots distinct.
  pub add_watch_to_cache-IsUnique :
      find_watch c (some w) ≡ none → IsUnique c → IsUnique (add_watch_to_cache c w p).1
  add_watch_to_cache-IsUnique new u n = ground (arith, watches-add n, u n, find_watch-none c w new)

  -- If no descriptor is held by two slots: adding a descriptor that is not in the cache adds its
  -- path, as far as it fits, to the map, and leaves the path of every other descriptor.
  pub path_of-add_watch_to_cache :
      find_watch c (some w) ≡ none
      → IsUnique c
      → (n : ℕ)
      → path_of (add_watch_to_cache c w p).1 n
        ≡ (if w == n then some (strncpy path_max p) else path_of c n)
  unfolding add_watch_to_cache
  path_of-add_watch_to_cache new u n =
      let s = find_empty_cache_slot-EmptySlot c in
      let (old, at, free) = s.unused in
      let unique = add_watch_to_cache-IsUnique new u n in
      ground (
        arith,
        s.same_watches n,
        s.same_paths n,
        u n,
        path_of-set (find_empty_cache_slot c).1 (find_empty_cache_slot c).0 n new_entry old at,
      )

module _ (c : List Watch) (slot : ℕ) (e : Watch) (here : get_elem? c slot ≡ some e) where
  watches-mark : (n : ℕ) → watches n (mark_cache_slot_empty c slot) + holds n e ≡ watches n c
  unfolding mark_cache_slot_empty
  watches-mark n = omega (arith, watches-set c slot n empty_watch e here)

  pub mark_cache_slot_empty-IsUnique : IsUnique c → IsUnique (mark_cache_slot_empty c slot)
  mark_cache_slot_empty-IsUnique u n = omega (arith, u n, watches-mark n)

  -- If no descriptor is held by two slots: marking the slot of a descriptor empty takes that
  -- descriptor out of the map, and leaves the path of every other one.
  pub path_of-mark_cache_slot_empty :
      IsUnique c
      → (n : ℕ)
      → path_of (mark_cache_slot_empty c slot) n
        ≡ (if wd_eq e.wd (some n) then none else path_of c n)
  unfolding mark_cache_slot_empty
  path_of-mark_cache_slot_empty u n =
      ground (arith, u n, watches-mark n, path_of-set c slot n empty_watch e here)
