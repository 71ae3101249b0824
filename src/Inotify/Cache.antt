-- ===== src/Inotify/Cache.antt =====
-- inotify/inotify_dtree.c, "Data structures and functions for the watch list cache": the array
-- `wlCache` of `cacheSize` slots as a list, and the functions that search and change it.
pub mod View
pub mod Update
pub mod Rename
use the_linux_programming_in.Prelude.{
  not, ℕ, zero, suc, ◌+◌, Bool, true, false, ◌&&◌, ◌||◌, Option, none, some, List, [], ◌∷◌, ◌++◌,
  length, set, get_elem?, drop, replicate, ◌==◌, if◌then◌else◌,
}
use the_linux_programming_in.CString.{str_eq, starts_with, char_at, strncpy, snprintf}

abbrev pub FilePath : Type 0
FilePath = List ℕ

abbrev pub path_max : ℕ
path_max = 4096

abbrev pub name_max : ℕ
name_max = 255

-- `struct watch`; the descriptor -1 of an unused slot is `none`.
pub record Watch : Type 0 where
  pub wd : Option ℕ
  pub path : FilePath

-- `a == b` on descriptors
abbrev pub wd_eq : Option ℕ → Option ℕ → Bool
wd_eq none none = true
wd_eq none (some b) = false
wd_eq (some a) none = false
wd_eq (some a) (some b) = a == b

-- `wd >= 0`
abbrev pub is_live : Option ℕ → Bool
is_live none = false
is_live (some a) = true

abbrev pub empty_watch : Watch
empty_watch = record { wd = none; path = [] }

-- A found slot is an index, -1 is `none`; the loop over `j` is the recursion on the rest.
abbrev pub next_slot : Option ℕ → Option ℕ
next_slot none = none
next_slot (some j) = some (suc j)

unfoldable pub free_cache : List Watch → List Watch
free_cache cache = []

unfoldable pub find_watch : List Watch → Option ℕ → Option ℕ
find_watch [] wd = none
find_watch (e ∷ es) wd = if wd_eq e.wd wd then some zero else next_slot (find_watch es wd)

-- What is logged of the slot is what it was set to before; for new slots see `grow_cache`.
unfoldable pub mark_cache_slot_empty : List Watch → ℕ → List Watch
mark_cache_slot_empty cache slot = set cache slot empty_watch

abbrev pub alloc_incr : ℕ
alloc_incr = 200

-- `realloc`, then every new slot is marked empty; its failure ends the program and is not modelled. What
-- markCacheSlotEmpty logs of a slot that was never set is `log_new_slots` in Tree.
unfoldable pub grow_cache : List Watch → List Watch
grow_cache cache = cache ++ replicate alloc_incr empty_watch

-- No slot is free, so that new ones are made and marked.
unfoldable pub needs_room : List Watch → Bool
unfolding find_watch
needs_room cache = not (is_live (find_watch cache none))

-- The slot, and the array with room for it.
unfoldable pub find_empty_cache_slot : List Watch → ℕ × List Watch
unfolding find_watch grow_cache
find_empty_cache_slot cache = elim (find_watch cache none) [
  | some j ↦ (j, cache)
  | none ↦ (length cache, grow_cache cache)
]

unfoldable pub add_watch_to_cache : List Watch → ℕ → FilePath → ℕ × List Watch
unfolding find_empty_cache_slot strncpy
add_watch_to_cache cache wd pathname =
    let (slot, room) = find_empty_cache_slot cache in
    (slot, set room slot (record { wd = some wd; path = strncpy path_max pathname }))

unfoldable pub pathname_to_cache_slot : List Watch → FilePath → Option ℕ
unfolding str_eq
pathname_to_cache_slot [] pathname = none
pathname_to_cache_slot (e ∷ es) pathname =
    if is_live e.wd && str_eq e.path pathname
    then some zero
    else next_slot (pathname_to_cache_slot es pathname)

unfoldable pub pathname_in_cache : List Watch → FilePath → Bool
unfolding pathname_to_cache_slot
pathname_in_cache cache pathname = is_live (pathname_to_cache_slot cache pathname)

-- `strncmp(pn, path, len) == 0 && (path[len] == '/' || path[len] == '\0')`
unfoldable pub in_subtree : FilePath → FilePath → Bool
unfolding starts_with char_at
in_subtree pn path =
    starts_with pn path && (char_at path (length pn) == b'/' || char_at path (length pn) == 0)

-- `snprintf(buf, size, "%s/%s", prefix, name)`
unfoldable pub join_path : ℕ → FilePath → FilePath → FilePath
unfolding snprintf
join_path size prefix name = snprintf size (prefix ++ b'/' ∷ name)

-- One round of the loop of `rewriteCachedPaths`, on the path of the slot
unfoldable pub rewrite_path : FilePath → FilePath → FilePath → FilePath
unfolding in_subtree snprintf strncpy
rewrite_path full_path new_prefix path =
    if in_subtree full_path path
    then strncpy path_max (snprintf path_max (new_prefix ++ drop (length full_path) path))
    else path

unfoldable pub rewrite_loop : FilePath → FilePath → List Watch → List Watch
rewrite_loop full_path new_prefix [] = []
rewrite_loop full_path new_prefix (e ∷ es) =
    record e { path = rewrite_path full_path new_prefix e.path }
    ∷ rewrite_loop full_path new_prefix es

unfoldable pub rewrite_cached_paths :
    List Watch → FilePath → FilePath → FilePath → FilePath → List Watch
unfolding rewrite_loop join_path
rewrite_cached_paths cache old_prefix old_name new_prefix new_name =
    rewrite_loop (join_path path_max old_prefix old_name) (join_path path_max new_prefix new_name)
      cache
