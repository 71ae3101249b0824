-- ===== src/NsCapable/Tests.antt =====
-- The theorem on namespaces/ns_capable.c at a concrete input.
use the_linux_programming_in.Prelude.{
  zero, ◌==◌, if◌then◌else◌, ◌↔◌, inl, inr, ◌<◌, length, suc, ℕ, ◌+◌, ◌≤◌, ◌≡◌, ◌⊎◌, refl, false,
  true, none, some, List, [], ◌∷◌, arith,
}
use the_linux_programming_in.NsCapable.{
  user_path, euid_of_process, euid_in, uid_line, Kernel, Parent, parent_is, eperm, behind,
  ns_capable,
}
use the_linux_programming_in.NsCapable.Rules.{IsKernel, HasCap, grants}
use the_linux_programming_in.NsCapable.Answer.{ns_capable_iff}

-- Namespace 2 is a child of 1, which is a child of 0 and belongs to user 1000.
abbrev above : ℕ → Parent
above zero = eperm
above (suc zero) = parent_is 0
above (suc (suc zero)) = parent_is 1
above (suc (suc (suc n))) = eperm

abbrev depth_of : ℕ → ℕ
depth_of zero = 0
depth_of (suc zero) = 1
depth_of (suc (suc zero)) = 2
depth_of (suc (suc (suc n))) = 0

above-less :
    (n : ℕ) → (above n ≡ eperm) ⊎ ((p : ℕ) × (above n ≡ parent_is p) × (depth_of p < depth_of n))
above-less zero = inl refl
above-less (suc zero) = inr (0, refl, omega arith)
above-less (suc (suc zero)) = inr (1, refl, omega arith)
above-less (suc (suc (suc n))) = inl refl

depth_of_small : (n : ℕ) → depth_of n < 34
depth_of_small zero = omega arith
depth_of_small (suc zero) = omega arith
depth_of_small (suc (suc zero)) = omega arith
depth_of_small (suc (suc (suc n))) = omega arith

abbrev owner_number : ℕ → ℕ
owner_number n = if n == 1 then 1000 else 0

-- More than each descriptor in use
abbrev unused : List (ℕ × ℕ) → ℕ
unused [] = 0
unused ((g, n) ∷ t) = g + suc (unused t)

unused-behind : (fd : ℕ) (t : List (ℕ × ℕ)) → unused t ≤ fd → behind fd t ≡ none
unfolding behind
unused-behind fd [] h = refl
unused-behind fd ((g, n) ∷ t) h = ground (arith, h, unused-behind fd t (omega (arith, h)))

-- The process is in namespace 0, and a file without a name is namespace 2.
abbrev three_namespaces : Kernel
three_namespaces = record {
  new_fd = λ t. some (unused t);
  file = λ path. if length path == 0 then some 2 else some 0;
  stat = λ n. some (5, n);
  is_user = λ n. some true;
  owning = λ n. none;
  parent = above;
  owner_uid = λ n. some (owner_number n);
  status = λ pid. some ((b'U' ∷ b'i' ∷ b'd' ∷ b':' ∷ []) ∷ []);
  atoi = λ s. 7;
  second_number = λ l. 1000;
}

three_namespaces-IsKernel : IsKernel three_namespaces
three_namespaces-IsKernel = record {
  new_fd = λ t. (unused t, refl, unused-behind (unused t) t (omega arith));
  stat = λ n. ((5, n), refl);
  stat_differs = λ m n s a b. ground (arith, a, b);
  owner = λ n. (owner_number n, refl);
  level = depth_of;
  parent = above-less;
  depth = depth_of_small;
}

ns_capable_iff_example :
    (grants (ns_capable three_namespaces (b'7' ∷ []) [] []) false ≡ true)
    ↔ HasCap three_namespaces 0 1000 false 2
unfolding user_path euid_of_process euid_in uid_line
ns_capable_iff_example =
    ns_capable_iff three_namespaces three_namespaces-IsKernel 0 1000 false (b'7' ∷ []) [] [] 2 2
      refl (inl (refl, refl)) refl refl
