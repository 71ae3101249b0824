-- ===== src/NsCapable/Answer.antt =====
-- The answer of namespaces/ns_capable.c agrees with the rules.
use the_linux_programming_in.Prelude.{
  ℕ, zero, suc, ◌<◌, ◌≤◌, ◌≡◌, ◌≢◌, ◌↔◌, refl, sym, ap, ◌∙◌, ◌⊎◌, inl, inr, Bool, true, false, some,
  List, ◌∷◌, arith, ◌==◌, Bool-cases,
}
use the_linux_programming_in.NsCapable.{
  owner_opened, after_search, after_equal, by_owner, with_target, parent_is, eperm, Kernel, behind,
  close, Search, not_found, found, exits, unfinished, max_rounds, user_path, ns_equal,
  euid_of_process, search_ancestors, ns_capable,
}
use the_linux_programming_in.NsCapable.Rules.{
  IsKernel, HasCap, member, owns, inherits, IsTarget, grants, behind-close, behind_new, behind_same,
  same_lem,
}

module _ (k : Kernel) (i : IsKernel k) (home euid : ℕ) (in_set : Bool) where
  abbrev Has : ℕ → Type 0
  Has n = HasCap k home euid in_set n

  equal_lem :
      (t : List (ℕ × ℕ)) (fd g m n : ℕ)
      → behind fd t ≡ some m
      → behind g t ≡ some n
      → ((ns_equal k t fd g ≡ some true) × (m ≡ n)) ⊎ ((ns_equal k t fd g ≡ some false) × (m ≢ n))
  unfolding ns_equal
  equal_lem t fd g m n a b = rw (a, b) (same_lem k i m n)

  parent-level : (n p : ℕ) → k.parent n ≡ parent_is p → i.level p < i.level n
  parent-level n p e = elim (i.parent n) [
    | inl q ↦ absurd (ground (arith, e, q))
    | inr (p', q, l) ↦ ground (arith, e, q, l)
  ]

  Has-level : (n : ℕ) → Has n → i.level home ≤ i.level n
  Has-level n (member e s) = omega (arith, ap i.level e)
  Has-level n (owns e u) = omega (arith, parent-level n home e)
  Has-level n (inherits {p = p} e h) = omega (arith, parent-level n p e, Has-level p h)

  Has-home : (n : ℕ) → n ≡ home → Has n → in_set ≡ true
  Has-home n q (member e s) = s
  Has-home n q (owns e u) = absurd (omega (arith, parent-level n home e, ap i.level q))
  Has-home n q (inherits {p = p} e h) =
      absurd (omega (arith, parent-level n p e, Has-level p h, ap i.level q))

  no_parent : (n : ℕ) → k.parent n ≡ eperm → n ≢ home → Has n → ⊥
  no_parent n q d (member e s) = d e
  no_parent n q d (owns e u) = absurd (ground (arith, q, e))
  no_parent n q d (inherits e h) = absurd (ground (arith, q, e))

  from_parent : (n p : ℕ) → k.parent n ≡ parent_is p → n ≢ home → p ≢ home → Has n → Has p
  from_parent n p q d f (member e s) = absurd (d e)
  from_parent n p q d f (owns e u) = absurd (ground (arith, f, q, e))
  from_parent n p q d f (inherits {p = p'} e h) =
      let same_p : p' ≡ p = ground (arith, q, e) in rw (sym same_p) h

  -- What the loop finds for the namespace `n`
  abbrev Answers : Search → ℕ → Type 0
  Answers (not_found t) n = Has n → ⊥
  Answers (found d t) n =
      (m : ℕ) × (behind d t ≡ some m) × (k.parent m ≡ parent_is home) × (Has n ↔ Has m)
  Answers exits n = ⊥
  Answers unfinished n = ⊥

  Answers-parent :
      (r : Search) (n p : ℕ) → (Has n → Has p) → (Has p → Has n) → Answers r p → Answers r n
  Answers-parent (not_found t) n p f g a = λ h. a (f h)
  Answers-parent (found d t) n p f g (m, b, q, e) = (m, b, q, (λ h. e.0 (f h), λ h. g (e.1 h)))
  Answers-parent exits n p f g a = a
  Answers-parent unfinished n p f g a = a

  search_lem :
      (rounds pid_fd desc : ℕ) (t : List (ℕ × ℕ)) (n : ℕ)
      → i.level n < rounds
      → behind pid_fd t ≡ some home
      → behind desc t ≡ some n
      → n ≢ home
      → Answers (search_ancestors k rounds pid_fd desc t) n
  unfolding search_ancestors
  search_lem zero pid_fd desc t n l a b d = absurd (omega (arith, l))
  search_lem (suc rounds) pid_fd desc t n l a b d = elim (i.parent n) [
    | inl q ↦ rw (b, q) (no_parent n q d)
    | inr (p, q, less) ↦
        let (fd, new, free) = i.new_fd t in
        let (d_desc, b') = behind_new fd p desc n t free b in
        let (d_pid, a') = behind_new fd p pid_fd home t free a in
        rw (b, q, new)
          (elim (equal_lem ((fd, p) ∷ t) fd pid_fd p home (behind_same fd p t) a') [
            | inl (x, y) ↦ rw x (
              n,
              behind-close fd desc ((fd, p) ∷ t) d_desc ∙ b',
              q ∙ ap parent_is y,
              (λ h. h, λ h. h),
            )
            | inr (x, y) ↦
                let apart : desc ≢ pid_fd =
                  λ e. absurd (ground (arith, ap (λ f. behind f t) e, a, b, d)) in
                rw x (
                  Answers-parent _ n p (from_parent n p q d y) (inherits q) (
                    search_lem rounds pid_fd fd (close desc ((fd, p) ∷ t)) p
                      (omega (arith, l, less)) (behind-close desc pid_fd ((fd, p) ∷ t) apart ∙ a')
                      (behind-close desc fd ((fd, p) ∷ t) (λ e. d_desc (sym e))
                        ∙ behind_same fd p t)
                      y))
          ])
  ]

  child_sets :
      (m : ℕ) → k.parent m ≡ parent_is home → k.owner_uid m ≢ some euid → Has m → in_set ≡ true
  child_sets m q d (member e s) = s
  child_sets m q d (owns e u) = absurd (d u)
  child_sets m q d (inherits {p = p} e h) = Has-home p (ground (arith, q, e)) h

  by_owner_lem :
      (m u : ℕ)
      → k.parent m ≡ parent_is home
      → k.owner_uid m ≡ some u
      → (grants (by_owner k (some u) (some euid)) in_set ≡ true) ↔ Has m
  by_owner_lem m u q o = elim (Bool-cases (u == euid)) [
    | inl e ↦ rw e (λ _. owns q (o ∙ ap some (ground (arith, e))), λ _. refl)
    | inr e ↦
        rw e
          (λ s. inherits q (member refl s), child_sets m q (λ x. absurd (ground (arith, o, x, e))))
  ]

  after_search_lem :
      (pid n : ℕ) (r : Search)
      → euid_of_process k pid ≡ some euid
      → Answers r n
      → (grants (after_search k pid r) in_set ≡ true) ↔ Has n
  unfolding after_search
  after_search_lem pid n (not_found t) e a = (λ h. absurd (ground (arith, h)), λ h. absurd (a h))
  after_search_lem pid n (found d t) e (m, b, q, f) =
      let (u, o) = i.owner m in
      let answer = by_owner_lem m u q o in
      rw (b, o, e) (λ h. f.1 (answer.0 h), λ h. answer.1 (f.0 h))
  after_search_lem pid n exits e a = absurd a
  after_search_lem pid n unfinished e a = absurd a

  after_equal_lem :
      (pid target fd n : ℕ) (t : List (ℕ × ℕ))
      → euid_of_process k pid ≡ some euid
      → behind fd t ≡ some home
      → behind target t ≡ some n
      → (grants (after_equal k pid target fd t (ns_equal k t fd target)) in_set ≡ true) ↔ Has n
  unfolding after_equal
  after_equal_lem pid target fd n t e a b = elim (equal_lem t fd target home n a b) [
    | inl (x, y) ↦ rw x (λ s. member (sym y) s, Has-home n (sym y))
    | inr (x, y) ↦ rw x (
        after_search_lem pid n _ e
          (search_lem max_rounds fd target t n (i.depth n) a b (λ q. y (sym q))))
  ]

  with_target_lem :
      (pid target n : ℕ) (t : List (ℕ × ℕ))
      → euid_of_process k pid ≡ some euid
      → behind target t ≡ some n
      → (grants (with_target k pid (some home) target t) in_set ≡ true) ↔ Has n
  unfolding with_target
  with_target_lem pid target n t e b =
      let (fd, new, free) = i.new_fd t in
      rw new (
        after_equal_lem pid target fd n ((fd, home) ∷ t) e (behind_same fd home t)
          (behind_new fd home target n t free b).1)

  -- For a process in the user namespace `home` and a file of the user namespace `n`, or of another one that
  -- it owns, if the calls succeed and no namespace is nested too deep: what the program says that the
  -- process has in the target is what the rules give it, each capability in its sets and each one that is
  -- not.
  pub ns_capable_iff :
      (pid_str ns_file : List ℕ) (t : List (ℕ × ℕ)) (f n : ℕ)
      → k.file ns_file ≡ some f
      → IsTarget k f n
      → k.file (user_path pid_str) ≡ some home
      → euid_of_process k (k.atoi pid_str) ≡ some euid
      → (grants (ns_capable k pid_str ns_file t) in_set ≡ true) ↔ HasCap k home euid in_set n
  unfolding ns_capable owner_opened
  ns_capable_iff pid_str ns_file t f n a (inl (u, same_ns)) b e =
      let (fd, new, free) = i.new_fd t in
      rw (a, new, u, b)
        (with_target_lem (k.atoi pid_str) fd n ((fd, f) ∷ t) e
          (behind_same fd f t ∙ ap some same_ns))
  ns_capable_iff pid_str ns_file t f n a (inr (u, o)) b e =
      let (fd, new, free) = i.new_fd t in
      let (g, new_g, free_g) = i.new_fd ((fd, f) ∷ t) in
      let d : fd ≢ g = λ q. absurd (ground (arith, q, free_g, behind_same fd f t)) in
      rw (a, new, u, o, new_g, b)
        (with_target_lem (k.atoi pid_str) g n (close fd ((g, n) ∷ (fd, f) ∷ t)) e
          (behind-close fd g ((g, n) ∷ (fd, f) ∷ t) d ∙ behind_same g n ((fd, f) ∷ t)))
