-- ===== src/Inotify/Invariant/Trees.antt =====
-- The functions of inotify/inotify_dtree.c that change the cache for a whole tree keep the invariant.
use the_linux_programming_in.Prelude.{
  ◌&&◌, ℕ, ◌≡◌, refl, sym, ap, ◌∙◌, false, Option, none, some, List, [], ◌∷◌, arith,
}
use the_linux_programming_in.Inotify.Cache.{
  Watch, needs_room, FilePath, is_live, find_watch, free_cache,
}
use the_linux_programming_in.Inotify.Cache.View.{watches, IsUnique}
use the_linux_programming_in.Inotify.Cache.Update.{add_watch_to_cache-IsUnique}
use the_linux_programming_in.Inotify.Watcher.{
  logs_noisy, Visit, AddResult, added, enoent, failed, Kernel, Watcher, pure, call,
}
use the_linux_programming_in.Inotify.Watcher.Rules.{
  Returns, Returns-bind, Returns-if, Keeps, Keeps-bind, Keeps-then, Keeps-pure, Keeps-modify,
  Keeps-call, keeps_rules,
}
use the_linux_programming_in.Inotify.Tree.Zap.{watches-zap_slots}
use the_linux_programming_in.Inotify.Tree.{
  log_new_slots, add_watch, reset_dir_cnt, cache_new_watch, on_add_result, watch_anew,
  traverse_tree, traverse_all, watch_dir, watch_subtree, zap_subtree, watch_roots, reinitialize,
  drop_old,
}
use the_linux_programming_in.Inotify.Invariant.{speaks, zapped, IsConsistent}

module _ {K : Type 0} where
  -- Of the state the invariant reads the cache, the roots, the settings of the log and the size.
  pub IsConsistent-same :
      (w v : Watcher K)
      → v.ignore_root_dirs ≡ w.ignore_root_dirs
      → v.root_dir_paths ≡ w.root_dir_paths
      → speaks v ≡ speaks w
      → v.read_buffer_size ≡ w.read_buffer_size
      → IsUnique v.cache
      → IsConsistent w
      → IsConsistent v
  IsConsistent-same w v i r l z u c = record {
    unique = u;
    counted = i ∙ c.counted ∙ ap zapped (sym r);
    watching = ground (arith, c.watching);
    quiet = l ∙ c.quiet;
    sized = omega (arith, z, c.sized);
  }

  pub IsConsistent-kernel :
      (w : Watcher K) (s : K) → IsConsistent w → IsConsistent (record w { kernel = s })
  IsConsistent-kernel w s c = IsConsistent-same w _ refl refl refl refl c.unique c

  pub call-Keeps : {A : Type 0} (f : K → A × K) → Keeps IsConsistent (call f)
  call-Keeps f = Keeps-call f IsConsistent-kernel

  -- Nothing is printed of slots that were never set.
  log_new_slots-Returns :
      (w : Watcher K)
      → IsConsistent w
      → Returns (λ _ v. IsConsistent v × (v.cache ≡ w.cache)) (log_new_slots w)
  unfolding log_new_slots
  log_new_slots-Returns w c =
      Returns-if _ (needs_room w.cache && logs_noisy w) _ _
        (λ t. absurd (ground (arith, t, c.quiet))) (λ _. (c, refl))

  cache_new_watch-Keeps :
      (wd : ℕ) (p : FilePath) → Keeps IsConsistent (cache_new_watch {K = K} wd p)
  unfolding cache_new_watch add_watch
  cache_new_watch-Keeps wd p = record {
    at = λ w c.
        Returns-if _ (is_live (find_watch w.cache (some wd))) _ _ (λ _. c)
          (λ new. Returns-bind _ _ (log_new_slots w) _ (log_new_slots-Returns w c) (λ _ v q.
            IsConsistent-same v _ refl refl refl refl
              (add_watch_to_cache-IsUnique v.cache wd p
                (ap (λ (e : List Watch). find_watch e (some wd)) q.1
                  ∙ not_live (find_watch w.cache (some wd)) new)
                q.0.unique)
              q.0));
  }
    where
      not_live : (o : Option ℕ) → is_live o ≡ false → o ≡ none
      not_live o h = ground arith

  on_add_result-Keeps :
      (p : FilePath) (r : AddResult) → Keeps IsConsistent (on_add_result {K = K} p r)
  unfolding on_add_result
  on_add_result-Keeps p (added wd) = cache_new_watch-Keeps wd p
  on_add_result-Keeps p enoent = record { at = λ w c. c }
  on_add_result-Keeps p failed = record { at = λ w c. tt }

  reset_dir_cnt-Keeps : Keeps IsConsistent (reset_dir_cnt {K = K})
  reset_dir_cnt-Keeps = Keeps-modify _ (λ w c. IsConsistent-same w _ refl refl refl refl c.unique c)

module _ (k : Kernel) where
  traverse_tree-Keeps : (fd : ℕ) (v : Visit) → Keeps IsConsistent (traverse_tree k fd v)
  unfolding traverse_tree
  traverse_tree-Keeps fd v = record {
    at = λ w c.
        Returns-if _ v.is_dir _ _
          (λ _. (on_add_result-Keeps v.pathname _).at _ (IsConsistent-kernel w _ c)) (λ _. c);
  }

  traverse_all-Keeps : (fd : ℕ) (vs : List Visit) → Keeps IsConsistent (traverse_all k fd vs)
  unfolding traverse_all
  traverse_all-Keeps fd [] = Keeps-pure tt
  traverse_all-Keeps fd (v ∷ vs) =
      Keeps-then (traverse_tree k fd v) (traverse_all k fd vs) (traverse_tree-Keeps fd v)
        (traverse_all-Keeps fd vs)

  watch_dir-Keeps : (fd : ℕ) (p : FilePath) → Keeps IsConsistent (watch_dir k fd p)
  unfolding watch_dir
  watch_dir-Keeps fd p = search (keeps_rules, reset_dir_cnt-Keeps, call-Keeps, traverse_all-Keeps)

  pub watch_subtree-Keeps : (fd : ℕ) (p : FilePath) → Keeps IsConsistent (watch_subtree k fd p)
  unfolding watch_subtree
  watch_subtree-Keeps fd p = search (keeps_rules, watch_dir-Keeps)

  watch_roots-Keeps :
      (fd : ℕ) (ps : List (Option FilePath)) → Keeps IsConsistent (watch_roots k fd ps)
  unfolding watch_roots
  watch_roots-Keeps fd [] = Keeps-pure tt
  watch_roots-Keeps fd (none ∷ ps) = watch_roots-Keeps fd ps
  watch_roots-Keeps fd (some p ∷ ps) =
      Keeps-then (watch_subtree k fd p) (watch_roots k fd ps) (watch_subtree-Keeps fd p)
        (watch_roots-Keeps fd ps)

  watch_anew-Keeps : (r : Option ℕ) → Keeps IsConsistent (watch_anew k r)
  unfolding watch_anew free_cache watches
  watch_anew-Keeps none = record { at = λ w c. tt }
  watch_anew-Keeps (some fd) = record {
    at = λ w c.
        (Keeps-bind (watch_roots k fd w.root_dir_paths) (λ _. pure fd)
            (watch_roots-Keeps fd w.root_dir_paths) (λ _. Keeps-pure fd)).at
          _ (IsConsistent-same w _ refl refl refl refl (λ n. omega arith) c);
  }

  drop_old-Keeps : (old : Option ℕ) → Keeps IsConsistent (drop_old k old)
  drop_old-Keeps none = record { at = λ w c. IsConsistent-same w _ refl refl refl refl c.unique c }
  drop_old-Keeps (some fd) = record {
    at = λ w c. IsConsistent-same w _ refl refl refl refl c.unique c;
  }

  -- Rebuilding the cache, the first time too, keeps the invariant.
  pub reinitialize-Keeps : (old : Option ℕ) → Keeps IsConsistent (reinitialize k old)
  unfolding reinitialize
  reinitialize-Keeps old = search (keeps_rules, call-Keeps, drop_old-Keeps, watch_anew-Keeps)

  pub zap_subtree-Keeps : (fd : ℕ) (p : FilePath) → Keeps IsConsistent (zap_subtree k fd p)
  unfolding zap_subtree
  zap_subtree-Keeps fd p = record {
    at = λ w c.
        IsConsistent-same w _ refl refl refl refl
          (λ n. omega (arith, c.unique n, watches-zap_slots k fd p w.cache 0 w.kernel n)) c;
  }
