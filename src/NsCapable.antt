-- ===== src/NsCapable.antt =====
-- namespaces/ns_capable.c: which capabilities a process has in a namespace. The kernel is a parameter; a
-- namespace is a number, and a file descriptor of it stands in the list of those that are open.
pub mod Rules
pub mod Answer
mod Tests
use the_linux_programming_in.Prelude.{
  ℕ, zero, suc, ◌+◌, ◌-◌, ◌≡◌, Bool, true, false, ◌&&◌, Option, none, some, List, [], ◌∷◌, ◌++◌,
  take, ◌==◌, if◌then◌else◌,
}
use the_linux_programming_in.CString.{starts_with, snprintf}

-- NS_GET_PARENT: the parent, the error EPERM, or another one
pub data Parent : Type 0 where
  parent_is : ℕ → Parent
  eperm other_error : Parent

-- What the program asks of the system: the number of a new file descriptor, if there is one; the namespace
-- that a file stands for; what fstat() and the four requests of ioctl() give, the type being whether it is
-- CLONE_NEWUSER; the lines of the status of a process; and atoi() and the second number of a line.
pub record Kernel : Type 0 where
  pub new_fd : List (ℕ × ℕ) → Option ℕ
  pub file : List ℕ → Option ℕ
  pub stat : ℕ → Option (ℕ × ℕ)
  pub is_user : ℕ → Option Bool
  pub owning : ℕ → Option ℕ
  pub parent : ℕ → Parent
  pub owner_uid : ℕ → Option ℕ
  pub status : ℕ → Option (List (List ℕ))
  pub atoi : List ℕ → ℕ
  pub second_number : List ℕ → ℕ

-- The namespace behind a file descriptor, by those that are open
unfoldable pub behind : ℕ → List (ℕ × ℕ) → Option ℕ
behind fd [] = none
behind fd ((g, n) ∷ t) = let rest = behind fd t in if g == fd then some n else rest

unfoldable pub close : ℕ → List (ℕ × ℕ) → List (ℕ × ℕ)
close fd [] = []
close fd ((g, n) ∷ t) = let rest = close fd t in if g == fd then rest else (g, n) ∷ rest

-- What search_ancestors() gives: -1 or the descriptor of a descendant, with those that are open; the end of
-- the program, or no end yet
pub data Search : Type 0 where
  not_found : List (ℕ × ℕ) → Search
  found : ℕ → List (ℕ × ℕ) → Search
  exits unfinished : Search

-- What the program says: the process has the capabilities in its sets, all, or none; or it fails.
pub data Verdict : Type 0 where
  in_sets all_capabilities no_capabilities failure endless : Verdict

-- User namespaces are nested 32 deep at most.
abbrev pub max_rounds : ℕ
max_rounds = 34

-- `sb1.st_dev == sb2.st_dev && sb1.st_ino == sb2.st_ino`; `none` is an exit.
abbrev pub same : Option (ℕ × ℕ) → Option (ℕ × ℕ) → Option Bool
same none s = none
same (some s) none = none
same (some (d, i)) (some (e, j)) = some (d == e && i == j)

-- The first line that begins with `Uid:`
unfoldable pub uid_line : List (List ℕ) → Option (List ℕ)
unfolding starts_with
uid_line [] = none
uid_line (l ∷ ls) =
    let rest = uid_line ls in
    if starts_with (b'U' ∷ b'i' ∷ b'd' ∷ b':' ∷ []) l then some l else rest

-- "/proc/%s/ns/user", into a buffer of PATH_MAX bytes
unfoldable pub user_path : List ℕ → List ℕ
unfolding snprintf
user_path pid = snprintf 4096 (
    b'/' ∷ b'p' ∷ b'r' ∷ b'o' ∷ b'c' ∷ b'/' ∷ []
    ++ pid
    ++ b'/' ∷ b'n' ∷ b's' ∷ b'/' ∷ b'u' ∷ b's' ∷ b'e' ∷ b'r' ∷ [])

module _ (k : Kernel) where
  abbrev pub fstat : Option ℕ → Option (ℕ × ℕ)
  fstat none = none
  fstat (some n) = k.stat n

  unfoldable pub ns_equal : List (ℕ × ℕ) → ℕ → ℕ → Option Bool
  unfolding behind
  ns_equal t fd g = same (fstat (behind fd t)) (fstat (behind g t))

  -- The number of the effective user ID
  abbrev pub euid_of : Option (List ℕ) → Option ℕ
  euid_of none = none
  euid_of (some l) = some (k.second_number l)

  unfoldable pub euid_in : Option (List (List ℕ)) → Option ℕ
  unfolding uid_line
  euid_in none = none
  euid_in (some ls) = euid_of (uid_line ls)

  unfoldable pub euid_of_process : ℕ → Option ℕ
  euid_of_process pid = euid_in (k.status pid)

  -- A new descriptor of `n`, and what is done with it
  abbrev pub opened {ℓ} :
      {A : Type ℓ} → A → (ℕ → List (ℕ × ℕ) → A) → ℕ → List (ℕ × ℕ) → Option ℕ → A
  opened fails next n t none = fails
  opened fails next n t (some fd) = next fd ((fd, n) ∷ t)

  -- The test of the loop, with the parent `fd` of `desc`, and the rest of the loop
  abbrev pub after_test : (ℕ → List (ℕ × ℕ) → Search) → ℕ → ℕ → List (ℕ × ℕ) → Option Bool → Search
  unfolding close
  after_test rest desc fd t none = exits
  after_test rest desc fd t (some true) = found desc (close fd t)
  after_test rest desc fd t (some false) = rest fd (close desc t)

  abbrev pub after_parent : (ℕ → List (ℕ × ℕ) → Search) → ℕ → ℕ → List (ℕ × ℕ) → Parent → Search
  unfolding ns_equal close
  after_parent rest pid_fd desc t eperm = not_found t
  after_parent rest pid_fd desc t other_error = exits
  after_parent rest pid_fd desc t (parent_is p) =
      opened exits (λ fd u. after_test rest desc fd u (ns_equal u fd pid_fd)) p t (k.new_fd t)

  abbrev pub parent_of : Option ℕ → Parent
  parent_of none = other_error
  parent_of (some n) = k.parent n

  -- The loop, for so many rounds
  unfoldable pub search_ancestors : ℕ → ℕ → ℕ → List (ℕ × ℕ) → Search
  unfolding behind ns_equal close
  search_ancestors zero pid_fd desc t = unfinished
  search_ancestors (suc rounds) pid_fd desc t =
      after_parent (search_ancestors rounds pid_fd) pid_fd desc t (parent_of (behind desc t))

  -- `uid_of_userns_owner(desc_userns_fd) == euid_of_process(pid)`
  abbrev pub by_owner : Option ℕ → Option ℕ → Verdict
  by_owner none e = failure
  by_owner (some u) none = failure
  by_owner (some u) (some e) = if u == e then all_capabilities else in_sets

  abbrev pub owner_of : Option ℕ → Option ℕ
  owner_of none = none
  owner_of (some n) = k.owner_uid n

  abbrev pub after_search : ℕ → Search → Verdict
  unfolding euid_of_process behind
  after_search pid (not_found t) = no_capabilities
  after_search pid (found desc t) = by_owner (owner_of (behind desc t)) (euid_of_process pid)
  after_search pid exits = failure
  after_search pid unfinished = endless

  -- `if (ns_equal(pid_userns_fd, target_userns_fd))`
  abbrev pub after_equal : ℕ → ℕ → ℕ → List (ℕ × ℕ) → Option Bool → Verdict
  unfolding search_ancestors
  after_equal pid target pid_fd t none = failure
  after_equal pid target pid_fd t (some true) = in_sets
  after_equal pid target pid_fd t (some false) =
      after_search pid (search_ancestors max_rounds pid_fd target t)

  -- From open() of the user namespace of the process on, if it gives a namespace
  abbrev pub with_target : ℕ → Option ℕ → ℕ → List (ℕ × ℕ) → Verdict
  unfolding ns_equal
  with_target pid none target t = failure
  with_target pid (some home) target t =
      opened failure (λ fd u. after_equal pid target fd u (ns_equal u fd target)) home t
        (k.new_fd t)

  -- The user namespace that is looked at: the one of the file, or the one that owns it
  abbrev pub owner_opened : (ℕ → List (ℕ × ℕ) → Verdict) → ℕ → List (ℕ × ℕ) → Option ℕ → Verdict
  unfolding close
  owner_opened next fd t none = failure
  owner_opened next fd t (some n) = opened failure (λ g u. next g (close fd u)) n t (k.new_fd t)

  abbrev pub after_type :
      (ℕ → List (ℕ × ℕ) → Verdict) → ℕ → ℕ → List (ℕ × ℕ) → Option Bool → Verdict
  after_type next n fd t none = failure
  after_type next n fd t (some true) = next fd t
  after_type next n fd t (some false) = owner_opened next fd t (k.owning n)

  abbrev pub with_file : (ℕ → List (ℕ × ℕ) → Verdict) → List (ℕ × ℕ) → Option ℕ → Verdict
  with_file next t none = failure
  with_file next t (some n) =
      opened failure (λ fd u. after_type next n fd u (k.is_user n)) n t (k.new_fd t)

  -- `pid_str` and the path of the file, and the descriptors that are open at the start
  unfoldable pub ns_capable : List ℕ → List ℕ → List (ℕ × ℕ) → Verdict
  ns_capable pid_str ns_file t =
      with_file (with_target (k.atoi pid_str) (k.file (user_path pid_str))) t (k.file ns_file)
