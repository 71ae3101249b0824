-- ===== src/Inotify/Commands/Keeps.antt =====
-- The commands of the terminal in inotify/inotify_dtree.c keep the invariant.
use the_linux_programming_in.Prelude.{
  sym, ◌∙◌, ℤ, pos, if◌then◌else◌, ℕ, ◌≡◌, refl, ◌||◌, Bool, true, false, Option, none, some, List,
  [], ◌∷◌, arith, ◌==◌,
}
use mathlib.Core.Bool.{false≢true}
use the_linux_programming_in.Inotify.Cache.{FilePath}
use the_linux_programming_in.Syscall.{ReadResult, got, eof, eintr, read_error}
use the_linux_programming_in.Inotify.Watcher.{vb_noisy, Kernel, Watcher, M}
use the_linux_programming_in.Inotify.Watcher.Rules.{
  Returns, Returns-if, Keeps, Keeps-bind, Keeps-then, Keeps-pure, Keeps-modify,
}
use the_linux_programming_in.Inotify.Tree.{zap_subtree, watch_subtree, reinitialize}
use the_linux_programming_in.Inotify.Events.{set_fd}
use the_linux_programming_in.Inotify.Invariant.{speaks, IsConsistent}
use the_linux_programming_in.Inotify.Invariant.Trees.{
  IsConsistent-same, IsConsistent-kernel, watch_subtree-Keeps, reinitialize-Keeps,
  zap_subtree-Keeps,
}
use the_linux_programming_in.Inotify.Invariant.Slots.{check_slots-Keeps}
use the_linux_programming_in.Inotify.Invariant.Handlers.{set_fd-Keeps}
use the_linux_programming_in.Inotify.Commands.{
  is_zero, set_verbose, argument, line_of, with_arg, after_write, cmd_zap, cmd_add, cmd_verbose,
  cmd_write, close_fd, cmd_rebuild, run_command, run_line, execute_command,
}

-- A command that uses its argument has one; it does not ask for dumps of the cache, nor for noisy messages.
pub record IsFineCommand (atoi : List ℕ → ℤ) (cmd : ℕ) (arg : Option FilePath) : Type 0 where
  pub complete :
      (cmd == b'a' || cmd == b'w' || cmd == b'z') ≡ true → (p : FilePath) × (arg ≡ some p)
  pub no_dump : (cmd == b'd') ≡ false
  pub no_noise : (cmd == b'v') ≡ true → (p : FilePath) → arg ≡ some p → vb_noisy (atoi p) ≡ false

abbrev pub IsFineLine : (List ℕ → ℤ) → List ℕ → Type 0
IsFineLine atoi [] = Unit
IsFineLine atoi (cmd ∷ rest) = IsFineCommand atoi cmd (argument rest)

module _ {K : Type 0} where
  with_arg-Keeps :
      (cmd : ℕ) (arg : Option FilePath) (f : FilePath → M K (Unit {0}))
      → ((cmd == b'a' || cmd == b'w' || cmd == b'z') ≡ true → (p : FilePath) × (arg ≡ some p))
      → (cmd == b'a' || cmd == b'w' || cmd == b'z') ≡ true
      → ((p : FilePath) → Keeps IsConsistent (f p))
      → Keeps IsConsistent (with_arg arg f)
  with_arg-Keeps cmd none f c t k = absurd (grind (arith, c t))
  with_arg-Keeps cmd (some arg) f c t k = record { at = λ w h. (k arg).at w h }

module _ (k : Kernel)
    (writable : (p : FilePath) (ls : List FilePath) (s : k.State)
      → (k.write_lines p ls s).0 ≡ true) where
  open k use {State}

  cmd_zap-Keeps : (p : FilePath) → Keeps IsConsistent (cmd_zap k p)
  unfolding cmd_zap
  cmd_zap-Keeps p = record {
    at = λ w h.
        (Keeps-bind (zap_subtree k w.inotify_fd p) _ (zap_subtree-Keeps k w.inotify_fd p)
            (λ _. Keeps-pure tt)).at
          w h;
  }

  cmd_add-Keeps : (p : FilePath) → Keeps IsConsistent (cmd_add k p)
  unfolding cmd_add
  cmd_add-Keeps p = record {
    at = λ w h.
        (Keeps-then (cmd_zap k p) (watch_subtree k w.inotify_fd p) (cmd_zap-Keeps p)
            (watch_subtree-Keeps k w.inotify_fd p)).at
          w h;
  }

  quiet_with :
      (w : Watcher State) (m : ℤ)
      → speaks w ≡ false
      → vb_noisy m ≡ false
      → speaks (record w { verbose_mask = m }) ≡ false
  quiet_with w m q n = ground (arith, q, n)

  set_verbose-Returns :
      (m : ℤ) (w : Watcher State)
      → vb_noisy m ≡ false
      → IsConsistent w
      → Returns (λ _ v. IsConsistent v) (set_verbose m w)
  set_verbose-Returns m w n c =
      IsConsistent-same w _ refl refl (quiet_with w m c.quiet n ∙ sym c.quiet) refl c.unique c

  cmd_verbose-Returns :
      (arg : Option FilePath) (w : Watcher State)
      → ((p : FilePath) → arg ≡ some p → vb_noisy (k.atoi p) ≡ false)
      → IsConsistent w
      → Returns (λ _ v. IsConsistent v) (cmd_verbose k arg w)
  unfolding cmd_verbose
  cmd_verbose-Returns none w n c = set_verbose-Returns _ w (toggled (is_zero w.verbose_mask)) c
    where
      toggled : (b : Bool) → vb_noisy (pos (if b then 1 else 0)) ≡ false
      toggled true = refl
      toggled false = refl
  cmd_verbose-Returns (some p) w n c = set_verbose-Returns (k.atoi p) w (n p refl) c

  cmd_write-Keeps : (p : FilePath) → Keeps IsConsistent (cmd_write k p)
  unfolding cmd_write
  cmd_write-Keeps p = record {
    at = λ w h. opened w _ (writable p _ w.kernel) (IsConsistent-kernel w _ h);
  }
    where
      opened :
          (w : Watcher State) (r : Bool) {v : Watcher State}
          → r ≡ true
          → IsConsistent v
          → Returns (λ _ u. IsConsistent u) (after_write r v)
      opened w true e h = h
      opened w false e h = cc

  cmd_rebuild-Keeps : Keeps IsConsistent (cmd_rebuild k)
  unfolding cmd_rebuild
  cmd_rebuild-Keeps =
      Keeps-then (close_fd k) _
        (Keeps-modify _ (λ w c. IsConsistent-same w _ refl refl refl refl c.unique c))
        (Keeps-bind (reinitialize k none) set_fd (reinitialize-Keeps k none) set_fd-Keeps)

  run_command-Keeps :
      (cmd : ℕ) (arg : Option FilePath)
      → IsFineCommand k.atoi cmd arg
      → Keeps IsConsistent (run_command k cmd arg)
  unfolding run_command
  run_command-Keeps cmd arg c = record {
    at = λ w h.
        Returns-if _ (cmd == b'a') _ _
          (λ t. (with_arg-Keeps cmd arg (cmd_add k) c.complete (ground arith) cmd_add-Keeps).at w h)
          λ _.
            Returns-if _ (cmd == b'c' || cmd == b'C') _ _
              (λ _. (check_slots-Keeps k w.cache).at w h)
              λ _.
                Returns-if _ (cmd == b'l') _ _ (λ _. h)
                  λ _.
                    Returns-if _ (cmd == b'q') _ _ (λ _. tt)
                      λ _.
                        Returns-if _ (cmd == b'v') _ _
                          (λ t. cmd_verbose-Returns arg w (c.no_noise t) h)
                          λ _.
                            Returns-if _ (cmd == b'd') _ _
                              (λ t. absurd (false≢true (sym c.no_dump ∙ t)))
                              λ _.
                                Returns-if _ (cmd == b'x') _ _
                                  (λ _. IsConsistent-same w _ refl refl refl refl h.unique h)
                                  λ _.
                                    Returns-if _ (cmd == b'w') _ _
                                      (λ t.
                                        (with_arg-Keeps cmd arg (cmd_write k) c.complete
                                            (ground arith) cmd_write-Keeps).at
                                          w h)
                                      λ _.
                                        Returns-if _ (cmd == b'z') _ _
                                          (λ t.
                                            (with_arg-Keeps cmd arg (cmd_zap k) c.complete
                                                (ground arith) cmd_zap-Keeps).at
                                              w h)
                                          λ _.
                                            Returns-if _ (cmd == b'0') _ _
                                              (λ _. cmd_rebuild-Keeps.at w h) (λ _. h);
  }

  run_line-Keeps : (line : List ℕ) → IsFineLine k.atoi line → Keeps IsConsistent (run_line k line)
  unfolding run_line
  run_line-Keeps [] c = Keeps-pure tt
  run_line-Keeps (cmd ∷ rest) c = record {
    at = λ w h. (run_command-Keeps cmd (argument rest) c).at w h;
  }

  execute_command-Keeps :
      (r : ReadResult (List ℕ))
      → ((bytes : List ℕ) → r ≡ got bytes → IsFineLine k.atoi (line_of bytes))
      → Keeps IsConsistent (execute_command k r)
  unfolding execute_command
  execute_command-Keeps (got bytes) c = run_line-Keeps (line_of bytes) (c bytes refl)
  execute_command-Keeps eof c = record { at = λ w h. tt }
  execute_command-Keeps eintr c = record { at = λ w h. tt }
  execute_command-Keeps read_error c = record { at = λ w h. tt }

  -- If a command that uses its argument has one, none asks for dumps or noisy messages, and the file of a
  -- `w` command can be opened: from a state with the invariant `executeCommand` uses nothing that was not
  -- set, and keeps the invariant or exits.
  pub execute_command-IsConsistent :
      (r : ReadResult (List ℕ)) (w : Watcher State)
      → ((bytes : List ℕ) → r ≡ got bytes → IsFineLine k.atoi (line_of bytes))
      → IsConsistent w
      → Returns (λ _ v. IsConsistent v) (execute_command k r w)
  execute_command-IsConsistent r w c h = (execute_command-Keeps r c).at w h
