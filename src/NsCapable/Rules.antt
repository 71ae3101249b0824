-- ===== src/NsCapable/Rules.antt =====
-- The rules on capabilities in user namespaces, and what namespaces/ns_capable.c relies on.
use the_linux_programming_in.Prelude.{
  ℕ, ◌<◌, ◌≡◌, ◌≢◌, refl, ap, ◌⊎◌, inl, inr, Bool, true, false, ◌&&◌, none, some, List, [], ◌∷◌,
  arith, ◌==◌, Bool-cases,
}
use the_linux_programming_in.NsCapable.{
  parent_is, eperm, Kernel, behind, close, Verdict, in_sets, all_capabilities, no_capabilities,
  failure, endless, max_rounds, same,
}

pub behind-close : (fd g : ℕ) (t : List (ℕ × ℕ)) → fd ≢ g → behind g (close fd t) ≡ behind g t
unfolding behind close
behind-close fd g [] d = refl
behind-close fd g ((h, n) ∷ t) d = ground (arith, behind-close fd g t d)

-- What the program relies on: there is always a new file descriptor; fstat() tells two namespaces apart;
-- each user namespace has an owner, and a parent that is less deep, or none; and none is too deep.
pub record IsKernel (k : Kernel) : Type 0 where
  pub new_fd : (t : List (ℕ × ℕ)) → (fd : ℕ) × (k.new_fd t ≡ some fd) × (behind fd t ≡ none)
  pub stat : (n : ℕ) → (s : ℕ × ℕ) × (k.stat n ≡ some s)
  pub stat_differs : (m n : ℕ) (s : ℕ × ℕ) → k.stat m ≡ some s → k.stat n ≡ some s → m ≡ n
  pub owner : (n : ℕ) → (u : ℕ) × (k.owner_uid n ≡ some u)
  pub level : ℕ → ℕ
  pub parent :
      (n : ℕ) → (k.parent n ≡ eperm) ⊎ ((p : ℕ) × (k.parent n ≡ parent_is p) × (level p < level n))
  pub depth : (n : ℕ) → level n < max_rounds

-- The rules for a process in the user namespace `home`, with the effective user ID `euid` and a capability
-- that is in its sets or not: it has the capability in `home` if it is in its sets; it has each capability
-- in a child of `home` whose owner it is; and it has in a child what it has in the parent.
pub data HasCap (k : Kernel) (home euid : ℕ) (in_set : Bool) : ℕ → Type 0 where
  member : {n : ℕ} → n ≡ home → in_set ≡ true → HasCap k home euid in_set n
  owns :
      {n : ℕ}
      → k.parent n ≡ parent_is home
      → k.owner_uid n ≡ some euid
      → HasCap k home euid in_set n
  inherits :
      {n p : ℕ}
      → k.parent n ≡ parent_is p
      → HasCap k home euid in_set p
      → HasCap k home euid in_set n

-- The file is of the user namespace `n`, or of another one that `n` owns.
abbrev pub IsTarget : Kernel → ℕ → ℕ → Type 0
IsTarget k f n =
    ((k.is_user f ≡ some true) × (f ≡ n)) ⊎ ((k.is_user f ≡ some false) × (k.owning f ≡ some n))

abbrev pub grants : Verdict → Bool → Bool
grants in_sets s = s
grants all_capabilities s = true
grants no_capabilities s = false
grants failure s = false
grants endless s = false

pub same_lem :
    (k : Kernel)
    → IsKernel k
    → (m n : ℕ)
    → ((same (k.stat m) (k.stat n) ≡ some true) × (m ≡ n))
      ⊎ ((same (k.stat m) (k.stat n) ≡ some false) × (m ≢ n))
same_lem k i m n =
    let ((d, j), a) = i.stat m in
    let ((e, l), b) = i.stat n in
    elim (Bool-cases (d == e && j == l)) [
      | inl q ↦ inl (rw (a, b, q) refl, i.stat_differs m n (d, j) a (ground (arith, q, b)))
      | inr q ↦ inr (rw (a, b, q) refl, λ x. ground (arith, q, a, b, x))
    ]

pub behind_new :
    (fd n g m : ℕ) (t : List (ℕ × ℕ))
    → behind fd t ≡ none
    → behind g t ≡ some m
    → (fd ≢ g) × (behind g ((fd, n) ∷ t) ≡ some m)
unfolding behind
behind_new fd n g m t a b =
    let d : fd ≢ g = λ e. absurd (ground (arith, ap (λ x. behind x t) e, a, b)) in
    (d, ground (arith, d, b))

pub behind_same : (fd n : ℕ) (t : List (ℕ × ℕ)) → behind fd ((fd, n) ∷ t) ≡ some n
unfolding behind
behind_same fd n t = ground arith
