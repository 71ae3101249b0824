-- ===== src/Inotify/Main/Runs.antt =====
-- The whole program of inotify/inotify_dtree.c: from the command line on it keeps the invariant.
use the_linux_programming_in.Inotify.Roots.Copy.{copy_root_dir_paths_lem}
use the_linux_programming_in.Inotify.Cache.View.{watches}
use the_linux_programming_in.Prelude.{
  ℤ, ℕ, suc, ◌≤◌, ◌<◌, ◌≡◌, ◌≢◌, refl, sym, ap, ◌∙◌, true, false, Option, none, some, List, [], ◌∷◌,
  map, length, arith,
}
use the_linux_programming_in.Inotify.Cache.{FilePath}
use the_linux_programming_in.Syscall.{ReadResult, got}
use the_linux_programming_in.Inotify.Watcher.{vb_noisy, Kernel, Watcher, ◌>>=◌, ◌>>◌}
use the_linux_programming_in.Inotify.Watcher.Rules.{Returns, Returns-bind, Keeps-bind}
use the_linux_programming_in.Inotify.Roots.{copy_root_dir_paths}
use the_linux_programming_in.Inotify.Tree.{reinitialize}
use the_linux_programming_in.Inotify.Events.{inotify_read_buf_len, set_fd}
use the_linux_programming_in.Inotify.Invariant.{speaks, IsConsistent, zapped}
use the_linux_programming_in.Inotify.Invariant.Trees.{reinitialize-Keeps}
use the_linux_programming_in.Inotify.Invariant.Handlers.{set_fd-Keeps}
use the_linux_programming_in.Inotify.Loop.{
  Read, Progress, finished, waiting, stuck, process_inotify_events,
}
use the_linux_programming_in.Inotify.Loop.Layout.{IsFineRead, AllFine}
use the_linux_programming_in.Inotify.Loop.Ends.{process_inotify_events-Ends}
use the_linux_programming_in.Inotify.Commands.{line_of}
use the_linux_programming_in.Inotify.Commands.Keeps.{IsFineLine, execute_command-IsConsistent}
use the_linux_programming_in.Inotify.Main.{
  size_of, Opt, opt_a, opt_x, opt_d, opt_v, opt_b, opt_l, opt_other, Ready, initial, set_options,
  start, on_stdin, after_events, on_inotify, main_loop,
}

-- What the loop of `main` meets: fine commands, and reads of well-formed events
abbrev pub FineInput : (List ℕ → ℤ) → Option (ReadResult (List ℕ)) → Type 0
FineInput atoi none = Unit
FineInput atoi (some r) = (bytes : List ℕ) → r ≡ got bytes → IsFineLine atoi (line_of bytes)

abbrev pub FineReads : Option (Read × List Read) → Type 0
FineReads none = Unit
FineReads (some (r, rs)) = IsFineRead r × AllFine rs

abbrev pub AllReady : (List ℕ → ℤ) → List Ready → Type 0
AllReady atoi [] = Unit
AllReady atoi (r ∷ rs) = FineInput atoi r.stdin × FineReads r.inotify × AllReady atoi rs

-- No option asks for a log file, for dumps of the cache, which go there, or for noisy messages.
abbrev pub QuietOptions : (List ℕ → ℤ) → List Opt → Type 0
QuietOptions atoi [] = Unit
QuietOptions atoi (opt_a ∷ os) = ⊥
QuietOptions atoi (opt_d ∷ os) = ⊥
QuietOptions atoi (opt_l f ∷ os) = ⊥
QuietOptions atoi (opt_v arg ∷ os) = (vb_noisy (atoi arg) ≡ false) × QuietOptions atoi os
QuietOptions atoi (opt_x ∷ os) = QuietOptions atoi os
QuietOptions atoi (opt_b arg ∷ os) = QuietOptions atoi os
QuietOptions atoi (opt_other ∷ os) = QuietOptions atoi os

-- No `-b` is above the size of the array.
abbrev pub FineSizes : (List ℕ → ℤ) → List Opt → Type 0
FineSizes atoi [] = Unit
FineSizes atoi (opt_b arg ∷ os) = (size_of (atoi arg) ≤ inotify_read_buf_len) × FineSizes atoi os
FineSizes atoi (o ∷ os) = FineSizes atoi os

abbrev Configured : {K : Type 0} → Watcher K → Type 0
Configured w = (speaks w ≡ false) × (w.read_buffer_size ≤ inotify_read_buf_len)

zapped-map : (ps : List FilePath) → zapped (map some ps) ≡ 0
zapped-map [] = refl
zapped-map (p ∷ ps) = zapped-map ps

length-map-some : (ps : List FilePath) → length (map {B = Option FilePath} some ps) ≡ length ps
length-map-some [] = refl
length-map-some (p ∷ ps) = ap suc (length-map-some ps)

module _ (k : Kernel) where
  open k use {State, atoi, open_log}

  set_options-Configured :
      (os : List Opt) (w : Watcher State)
      → speaks w ≡ false
      → QuietOptions atoi os
      → FineSizes atoi os
      → w.read_buffer_size ≤ inotify_read_buf_len
      → w.cache ≡ []
      → Returns (λ _ v. Configured v × (v.cache ≡ [])) (set_options k os w)
  unfolding set_options
  set_options-Configured [] w l q f z c = ((l, z), c)
  set_options-Configured (opt_a ∷ os) w l q f z c = absurd q
  set_options-Configured (opt_d ∷ os) w l q f z c = absurd q
  set_options-Configured (opt_l file ∷ os) w l q f z c = absurd q
  set_options-Configured (opt_x ∷ os) w l q f z c = set_options-Configured os _ l q f z c
  set_options-Configured (opt_v arg ∷ os) w l q f z c =
      set_options-Configured os _ (ground (arith, l, q.0)) q.1 f z c
  set_options-Configured (opt_b arg ∷ os) w l q f z c = set_options-Configured os _ l q f.1 f.0 c
  set_options-Configured (opt_other ∷ os) w l q f z c = tt

  stdin-Returns :
      ((p : FilePath) (ls : List FilePath) (s : State) → (k.write_lines p ls s).0 ≡ true)
      → (r : Option (ReadResult (List ℕ))) (w : Watcher State) → FineInput atoi r
      → IsConsistent w
      → Returns (λ _ v. IsConsistent v) (on_stdin k r w)
  stdin-Returns writable none w f h = h
  stdin-Returns writable (some r) w f h = execute_command-IsConsistent k writable r w f h

  after_events-Returns :
      (p : Progress) (w : Watcher State)
      → p ≢ stuck
      → IsConsistent w
      → Returns (λ _ v. IsConsistent v) (after_events p w)
  after_events-Returns finished w e h = h
  after_events-Returns waiting w e h = h
  after_events-Returns stuck w e h = absurd (e refl)

  inotify-Returns :
      (r : Option (Read × List Read)) (w : Watcher State)
      → FineReads r
      → IsConsistent w
      → Returns (λ _ v. IsConsistent v) (on_inotify k r w)
  inotify-Returns none w f h = h
  inotify-Returns (some (r, rs)) w f h =
      Returns-bind _ _ (process_inotify_events k r rs w) _
        (process_inotify_events-Ends k r rs w f.0 f.1 h) (λ p v q. after_events-Returns p v q.0 q.1)

  -- The roots are copied and the cache is built.
  build-Returns :
      (dirs : List FilePath) (w : Watcher State)
      → 0 < length dirs
      → Configured w
      → w.cache ≡ []
      → Returns
          (λ _ v. IsConsistent v)
          ((copy_root_dir_paths k dirs >> (reinitialize k none >>= set_fd)) w)
  unfolding watches
  build-Returns dirs w some_dir c e =
      Returns-bind _ _ (copy_root_dir_paths k dirs w) _ (copy_root_dir_paths_lem k dirs w) (λ _ v q.
        (Keeps-bind (reinitialize k none) set_fd (reinitialize-Keeps k none) set_fd-Keeps).at v
          (record {
            unique = λ n. rw (q.6 ∙ e) (omega arith);
            counted = q.3 ∙ sym (ap zapped q.0 ∙ zapped-map dirs);
            watching = omega (
              arith,
              q.3,
              ap (λ (ps : List (Option FilePath)). length ps) q.0,
              length-map-some dirs,
            );
            quiet = q.7 ∙ c.0;
            sized = omega (arith, q.5, c.1);
          }))

  -- Whatever the directories of the command line and the kernel are: if no option asks for a log file, for
  -- dumps of the cache or for noisy messages, nor for a size for read() above that of the array, `main` uses
  -- nothing undefined before its loop, and reaches the loop with the invariant or exits.
  pub start-IsConsistent :
      (opts : List Opt) (dirs : List FilePath) (s : State)
      → QuietOptions atoi opts
      → FineSizes atoi opts
      → Returns (λ _ v. IsConsistent v) (start k opts dirs (initial s))
  unfolding start
  start-IsConsistent opts [] s n f =
      Returns-bind _ _ (set_options k opts (initial s)) _
        (set_options-Configured opts (initial s) refl n f (omega arith) refl) (λ _ v q. tt)
  start-IsConsistent opts (d ∷ ds) s n f =
      Returns-bind _ _ (set_options k opts (initial s)) _
        (set_options-Configured opts (initial s) refl n f (omega arith) refl)
        (λ _ v q. build-Returns (d ∷ ds) v (omega arith) q.0 q.1)

  -- If every command of the terminal has its argument and none asks for dumps or noisy messages, the reads
  -- give well-formed events and no more bytes than asked for, and the files of `w` can be opened: from a state with the invariant, the loop of `main`
  -- uses nothing undefined, its loops over events end, and it keeps the invariant or exits.
  pub main_loop-IsConsistent :
      ((p : FilePath) (ls : List FilePath) (s : State) → (k.write_lines p ls s).0 ≡ true)
      → (rs : List Ready) (w : Watcher State) → AllReady atoi rs
      → IsConsistent w
      → Returns (λ _ v. IsConsistent v) (main_loop k rs w)
  unfolding main_loop
  main_loop-IsConsistent writable [] w a h = h
  main_loop-IsConsistent writable (r ∷ rs) w a h =
      Returns-bind _ _ ((on_stdin k r.stdin >> on_inotify k r.inotify) w) _
        (Returns-bind _ _ (on_stdin k r.stdin w) _ (stdin-Returns writable r.stdin w a.0 h)
          (λ _ v q. inotify-Returns r.inotify v a.1 q))
        (λ _ v q. main_loop-IsConsistent writable rs v a.2 q)
