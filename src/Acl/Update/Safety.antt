-- ===== src/Acl/Update/Safety.antt =====
-- What acl/acl_update.c may change.
use the_linux_programming_in.Prelude.{
  sym, ℕ, ◌≡◌, refl, Bool, true, false, not, ◌&&◌, ◌||◌, Option, none, some, List, [], ◌∷◌, arith,
  ◌==◌, if◌then◌else◌,
}
use mathlib.Core.List.{Memᴰ}
use the_linux_programming_in.Acl.{AccessControlEntry, Ids, parse_acl}
use mathlib.Core.Path.{subst}
use the_linux_programming_in.Acl.Update.Options.{
  modes, asked_type, AllGood, OneMode, mode_m, mode_x, mode_k, mode_v, Describes,
  set_flags-Describes,
}
use the_linux_programming_in.Acl.Update.{
  opt_m, opt_x, opt_k, LibAcl, Opt, Flags, no_flags, set_flags, type_of, and_then, change_entry,
  write_acl, update_acl, update_read, update_file, update_files, update_listed, run, run_flags,
  main,
}

-- The options ask for ACLs to be written: exactly one of -m, -x, -k and -V is there, and it is -m or -x; its
-- text is an ACL, with permissions for -m and none for -x.
pub data AsksWrite (ids : Ids) (opts : List Opt) : Type 0 where
  by_m :
      (spec : List ℕ) (aces : List AccessControlEntry)
      → modes opts ≡ opt_m spec ∷ []
      → parse_acl ids spec true ≡ some aces
      → AsksWrite ids opts
  by_x :
      (spec : List ℕ) (aces : List AccessControlEntry)
      → modes opts ≡ opt_x spec ∷ []
      → parse_acl ids spec false ≡ some aces
      → AsksWrite ids opts

-- The changes that the options allow for the files `paths`
pub data Touched (k : LibAcl) (ids : Ids) (opts : List Opt) (paths : List (List ℕ)) (s : k.Files)
    : k.Files → Type 0 where
  kept : Touched k ids opts paths s s
  written :
      (t : k.Files) (path : List ℕ) (acl : k.Object)
      → Touched k ids opts paths s t
      → AllGood opts
      → AsksWrite ids opts
      → Memᴰ path paths
      → k.valid acl ≡ true
      → Touched k ids opts paths s (k.set_file path (asked_type opts) acl t).1
  deleted :
      (t : k.Files) (path : List ℕ)
      → Touched k ids opts paths s t
      → AllGood opts
      → modes opts ≡ opt_k ∷ []
      → Memᴰ path paths
      → Touched k ids opts paths s (k.delete_def_file path t).1

asks_write :
    (ids : Ids) (opts : List Opt) (f : Flags) (aces : List AccessControlEntry)
    → OneMode opts f
    → (f.modify_acl || f.remove_acl) ≡ true
    → parse_acl ids f.acl_spec f.modify_acl ≡ some aces
    → AsksWrite ids opts
asks_write ids opts f aces (mode_m spec m a b c d) w e = by_m spec aces m (rw (a, d) at e)
asks_write ids opts f aces (mode_x spec m a b c d) w e = by_x spec aces m (rw (a, d) at e)
asks_write ids opts f aces (mode_k m a b) w e = absurd (ground (arith, a, b, w))
asks_write ids opts f aces (mode_v a b c) w e = absurd (ground (arith, a, b, w))

asks_delete :
    (opts : List Opt) (f : Flags)
    → OneMode opts f
    → f.remove_default_acl ≡ true
    → modes opts ≡ opt_k ∷ []
asks_delete opts f (mode_m spec m a b c d) r = absurd (ground (arith, c, r))
asks_delete opts f (mode_x spec m a b c d) r = absurd (ground (arith, c, r))
asks_delete opts f (mode_k m a b) r = m
asks_delete opts f (mode_v a b c) r = absurd (ground (arith, c, r))

module _ (k : LibAcl) (ids : Ids) (opts : List Opt) (f : Flags) (describes : Describes opts f)
    (paths : List (List ℕ)) (s : k.Files) where
  abbrev T : k.Files → Type 0
  T = Touched k ids opts paths s

  choose-Touched :
      (b : Bool) (x y : Bool × k.Files)
      → (b ≡ true → T x.1)
      → (b ≡ false → T y.1)
      → T (if b then x else y).1
  choose-Touched true x y g h = g refl
  choose-Touched false x y g h = h refl

  and_then-Touched :
      (r : Bool × k.Files) (rest : k.Files → Bool × k.Files)
      → T r.1
      → ((t : k.Files) → T t → T (rest t).1)
      → T (and_then k r rest).1
  and_then-Touched (true, t) rest h g = g t h
  and_then-Touched (false, t) rest h g = h

  module _ (path : List ℕ) (m : Memᴰ path paths) (w : AsksWrite ids opts) where
    write_acl-Touched :
        (rest : k.Object → k.Files → Bool × k.Files) (acl : Option k.Object) (t : k.Files)
        → T t
        → ((a : k.Object) (u : k.Files) → T u → T (rest a u).1)
        → T (write_acl k f path rest acl t).1
    unfolding write_acl
    write_acl-Touched rest none t h g = h
    write_acl-Touched rest (some acl) t h g =
        choose-Touched (k.valid acl) _ _
          (λ v.
            and_then-Touched (k.set_file path (type_of f) acl t) (rest acl)
              (subst (λ type. T (k.set_file path type acl t).1) (sym describes.type)
                (written t path acl h describes.all_good w m v))
              (g acl))
          (λ _. h)

    update_acl-Touched :
        (aces : List AccessControlEntry) (acl : k.Object) (t : k.Files)
        → T t
        → T (update_acl k f path aces acl t).1
    unfolding update_acl
    update_acl-Touched [] acl t h = h
    update_acl-Touched (ace ∷ aces) acl t h =
        write_acl-Touched (update_acl k f path aces) (change_entry k f ace acl) t h
          (update_acl-Touched aces)

    update_read-Touched :
        (aces : List AccessControlEntry) (acl : Option k.Object) (t : k.Files)
        → T t
        → T (update_read k f path aces acl t).1
    unfolding update_read
    update_read-Touched aces none t h = h
    update_read-Touched aces (some acl) t h = update_acl-Touched aces acl t h

  module _ (one : f.opt_cnt ≡ 1) where
    -- A list of entries that was read, where one was asked for
    update_file-Touched :
        (aces : List AccessControlEntry) (path : List ℕ) (t : k.Files)
        → ((f.modify_acl || f.remove_acl) ≡ true → AsksWrite ids opts)
        → Memᴰ path paths
        → T t
        → T (update_file k f aces path t).1
    unfolding update_file
    update_file-Touched aces path t w m h =
        choose-Touched f.remove_default_acl _ _
          (λ d. deleted t path h describes.all_good (asks_delete opts f (describes.mode one) d) m)
          (λ _.
            choose-Touched (f.modify_acl || f.remove_acl) _ _
              (λ e. update_read-Touched path m (w e) aces (k.get_file path (type_of f) t) t h)
              (λ _. h))

    update_files-Touched :
        (aces : List AccessControlEntry) (l : List (List ℕ)) (t : k.Files)
        → ((f.modify_acl || f.remove_acl) ≡ true → AsksWrite ids opts)
        → ((p : List ℕ) → Memᴰ p l → Memᴰ p paths)
        → T t
        → T (update_files k f aces l t).1
    unfolding update_files
    update_files-Touched aces [] t w m h = h
    update_files-Touched aces (p ∷ l) t w m h =
        and_then-Touched (update_file k f aces p t) (update_files k f aces l)
          (update_file-Touched aces p t w (m p (Memᴰ.head refl)) h)
          (λ u g. update_files-Touched aces l u w (λ q n. m q (Memᴰ.tail n)) g)

  update_listed-Touched :
      (o : Option (List AccessControlEntry)) (t : k.Files)
      → f.opt_cnt ≡ 1
      → (f.modify_acl || f.remove_acl) ≡ true
      → parse_acl ids f.acl_spec f.modify_acl ≡ o
      → T t
      → T (update_listed k f o paths t).1
  unfolding update_listed
  update_listed-Touched none t one mode e h = h
  update_listed-Touched (some aces) t one mode e h =
      update_files-Touched one aces paths t
        (λ _. asks_write ids opts f aces (describes.mode one) mode e) (λ q n. n) h

  run-Touched : T (run k ids f paths s).1
  unfolding run
  run-Touched =
      choose-Touched (not (f.opt_cnt == 1)) _ _ (λ _. kept)
        (λ c.
          choose-Touched (f.check_validity && f.use_default_acl) _ _ (λ _. kept)
            (λ _.
              choose-Touched f.check_validity _ _ (λ _. kept)
                (λ _.
                  choose-Touched (f.modify_acl || f.remove_acl) _ _
                    (λ m.
                      update_listed-Touched (parse_acl ids f.acl_spec f.modify_acl) s
                        (ground (arith, c)) m refl kept)
                    (λ m.
                      update_files-Touched (ground (arith, c)) [] paths s
                        (λ g. absurd (ground (arith, g, m))) (λ q n. n) kept))))

-- Whatever libacl does and however `main` ends: it changes the ACLs of files only by writing an ACL that
-- acl_valid() has accepted, to a file of the command line, the default ACL if -d is there and the access ACL
-- if it is not, where exactly one of -m, -x, -k and -V is there and that is -m or -x with a text that is an
-- ACL, with permissions for -m and none for -x; or by removing the default ACL of a file of the command line,
-- where that one option is -k. A bad option lets it change nothing.
pub main-Allowed :
    (k : LibAcl) (ids : Ids) (opts : List Opt) (paths : List (List ℕ)) (s : k.Files)
    → Touched k ids opts paths s (main k ids opts paths s).1
unfolding main run_flags
main-Allowed k ids opts paths s = runs (set_flags opts no_flags) refl
  where
    runs :
        (o : Option Flags)
        → set_flags opts no_flags ≡ o
        → Touched k ids opts paths s (run_flags k ids o paths s).1
    runs none e = kept
    runs (some f) e = run-Touched k ids opts f (set_flags-Describes opts f e) paths s
