-- ===== src/Inotify/Roots/Copy.antt =====
-- `copyRootDirPaths` of inotify/inotify_dtree.c: what it leaves of the command line.
use the_linux_programming_in.Prelude.{
  ℕ, ◌≡◌, refl, sym, ap, ◌∙◌, false, Option, none, some, List, [], ◌∷◌, ◌++◌, map, length, arith,
  length-append,
}
use mathlib.Core.List.{append_assoc, append-nil, map-append}
use mathlib.Core.Path.{subst}
use the_linux_programming_in.Inotify.Cache.{FilePath}
use the_linux_programming_in.Inotify.Invariant.{speaks}
use the_linux_programming_in.Inotify.Watcher.{Stat, Kernel, Watcher, M}
use the_linux_programming_in.Inotify.Watcher.Rules.{Returns, Returns-bind, Returns-if}
use the_linux_programming_in.Inotify.Roots.{
  same_object, seen_before, check_args, copy_args, on_arg, on_copy, copy_root_dir_paths,
}

-- No two of the objects are one.
abbrev pub Distinct : List Stat → Type 0
Distinct [] = Unit
Distinct (s ∷ ss) = (seen_before s ss ≡ false) × Distinct ss

same_object_comm : (a b : Stat) → same_object a b ≡ same_object b a
same_object_comm a b = ground arith

seen_before-append :
    (s t : Stat) (ss : List Stat)
    → seen_before s ss ≡ false
    → same_object s t ≡ false
    → seen_before s (ss ++ t ∷ []) ≡ false
seen_before-append s t [] h e = ground arith
seen_before-append s t (x ∷ ss) h e = ground (arith, seen_before-append s t ss)

Distinct-append :
    (ss : List Stat) (t : Stat) → Distinct ss → seen_before t ss ≡ false → Distinct (ss ++ t ∷ [])
Distinct-append [] t d h = (refl, tt)
Distinct-append (s ∷ ss) t d h = (
  seen_before-append s t ss d.0 (same_object_comm s t ∙ first),
  Distinct-append ss t d.1 (ground arith),
)
  where
    first : same_object t s ≡ false
    first = ground arith

-- What is read of the state behind the copy stays as it was.
abbrev SameSettings : {K : Type 0} → Watcher K → Watcher K → Type 0
SameSettings w v =
    (v.has_log ≡ w.has_log)
    × (v.read_buffer_size ≡ w.read_buffer_size)
    × (v.cache ≡ w.cache)
    × (speaks v ≡ speaks w)

module _ (k : Kernel) where
  open k use {State}

  -- `Q` of the state, which a check of an argument does not change but for the kernel
  on_arg-Returns :
      (st : Option Stat) (m : M State ℕ) (v w : Watcher State)
      → Returns (λ _ u. SameSettings w u) (m v)
      → Returns (λ _ u. SameSettings w u) (on_arg st m v)
  unfolding on_arg
  on_arg-Returns none m v w h = tt
  on_arg-Returns (some sb) m v w h = Returns-if _ sb.is_dir _ _ (λ _. h) (λ _. tt)

  check_args-Returns :
      (ps : List FilePath) (w v : Watcher State)
      → SameSettings w v
      → Returns (λ _ u. SameSettings w u) (check_args k ps v)
  unfolding check_args
  check_args-Returns [] w v h = h
  check_args-Returns (p ∷ ps) w v h =
      on_arg-Returns (k.lstat p v.kernel).0 _ _ w
        (Returns-bind _ _ (check_args k ps _) _ (check_args-Returns ps w _ h) (λ n u q. q))

  -- The roots so far, each with its object, and no object twice
  record Copied (done : List FilePath) (w v : Watcher State) : Type 0 where
    paths : v.root_dir_paths ≡ map some done
    distinct : Distinct v.root_dir_stat
    each : length v.root_dir_stat ≡ length done
    settings : SameSettings w v

  on_copy-Returns :
      (p : FilePath) (st : Option Stat) (done : List FilePath) (w v : Watcher State)
      → Copied done w v
      → Returns (λ _ u. Copied (done ++ p ∷ []) w u) (on_copy p st v)
  unfolding on_copy
  on_copy-Returns p none done w v h = tt
  on_copy-Returns p (some sb) done w v h =
      Returns-if _ (seen_before sb v.root_dir_stat) _ _ (λ _. tt)
        (λ new. record {
          paths =
              ap (λ (t : List (Option FilePath)). t ++ some p ∷ []) h.paths
              ∙ sym (map-append some done (p ∷ []));
          distinct = Distinct-append v.root_dir_stat sb h.distinct new;
          each =
              omega (
                arith,
                h.each,
                length-append v.root_dir_stat (sb ∷ []),
                length-append done (p ∷ []),
              );
          settings = h.settings;
        })

  copy_args-Returns :
      (ps done all : List FilePath) (w v : Watcher State)
      → done ++ ps ≡ all
      → Copied done w v
      → Returns (λ _ u. Copied all w u) (copy_args k ps v)
  unfolding copy_args
  copy_args-Returns [] done all w v e h = subst (λ d. Copied d w v) (sym (append-nil done) ∙ e) h
  copy_args-Returns (p ∷ ps) done all w v e h =
      Returns-bind _ _ (on_copy p (k.lstat p v.kernel).0 _) _
        (on_copy-Returns p _ done w _
          (record { paths = h.paths; distinct = h.distinct; each = h.each; settings = h.settings }))
        (λ _ u q.
          copy_args-Returns ps (done ++ p ∷ []) all w u (append_assoc done (p ∷ []) ps ∙ e) q)

  pub copy_root_dir_paths_lem :
      (argv : List FilePath) (w : Watcher State)
      → Returns
          (λ _ v.
            (v.root_dir_paths ≡ map some argv)
            × Distinct v.root_dir_stat
            × (length v.root_dir_stat ≡ length argv)
            × (v.ignore_root_dirs ≡ 0)
            × (v.has_log ≡ w.has_log)
            × (v.read_buffer_size ≡ w.read_buffer_size)
            × (v.cache ≡ w.cache)
            × (speaks v ≡ speaks w))
          (copy_root_dir_paths k argv w)
  unfolding copy_root_dir_paths
  copy_root_dir_paths_lem argv w =
      Returns-bind _ _ (check_args k argv w) _
        (check_args-Returns argv w w (refl, refl, refl, refl))
        (λ n v q.
          Returns-bind _ _ (copy_args k argv _) _
            (copy_args-Returns argv [] argv w _ refl
              (record { paths = refl; distinct = tt; each = refl; settings = q }))
            (λ _ u c. (
              c.paths, c.distinct, c.each, refl, c.settings.0, c.settings.1, c.settings.2,
              c.settings.3,
            )))
