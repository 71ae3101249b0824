-- ===== src/PidFile/Instance.antt =====
-- filelock/create_pid_file.c lets one process through.
use the_linux_programming_in.Prelude.{ℕ, ◌≡◌, ◌⊎◌, Bool, true, false, List, []}
use the_linux_programming_in.PidFile.{
  Place, truncates, writes, returned, PidFile, State, owner_is, line_of,
}

-- A process that has the lock
abbrev pub holds : Place → Bool
holds truncates = true
holds writes = true
holds returned = true
holds p = false

abbrev pub has_returned : Place → Bool
has_returned returned = true
has_returned p = false

module _ (pid_text : ℕ → List ℕ) where
  -- What the file has, once process `i` is at a place
  abbrev Content : ℕ → Place → PidFile → Type 0
  Content i writes f = f.bytes ≡ []
  Content i returned f = f.bytes ≡ line_of pid_text i
  Content i p f = Unit

  abbrev Fits : ℕ → Place → PidFile → Type 0
  Fits i p f = (owner_is i f.owner ≡ holds p) × Content i p f

  abbrev AllFit : State → Type 0
  AllFit s = (i : ℕ) → Fits i (s.place i) s.file

  -- The lock is that of `i` exactly if it holds it, no other one does then, and a process that has returned
  -- finds its own line in the file.
  abbrev pub Alone : ℕ → ℕ → Place → Place → PidFile → Type 0
  Alone i j p q f =
      (owner_is i f.owner ≡ holds p)
      × ((holds p ≡ false) ⊎ ((holds q ≡ false) ⊎ (i ≡ j)))
      × ((has_returned p ≡ false) ⊎ (f.bytes ≡ line_of pid_text i))
