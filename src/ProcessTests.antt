-- ===== src/ProcessTests.antt =====
-- The theorems on proc/setenv.c and procexec/system.c at concrete inputs.
use the_linux_programming_in.Prelude.{
  Option, ◌==◌, not, ◌&&◌, if◌then◌else◌, ℕ, ◌≡◌, refl, Bool, true, false, none, some, List, [],
  ◌∷◌,
}
use the_linux_programming_in.CString.{char_at, str_eq}
use the_linux_programming_in.Shell.{
  Process, handler, sig_ign, wait_eintr, waited, Promises, system, system_lem,
}
use the_linux_programming_in.GetNum.{is_end}
use the_linux_programming_in.Setenv.{IsName, setenv, getenv, is_found, setenv_lem}

abbrev two_digits : List ℕ
two_digits = b'4' ∷ b'2' ∷ []

abbrev name_a : List ℕ
name_a = b'a' ∷ []

-- An environment with two entries for one name
abbrev two_a : List (List ℕ)
two_a = (b'a' ∷ b'=' ∷ b'1' ∷ []) ∷ (b'b' ∷ b'=' ∷ []) ∷ (b'a' ∷ b'=' ∷ b'2' ∷ []) ∷ []

name_a-IsName : IsName name_a
unfolding char_at
name_a-IsName = record { not_empty = refl; no_equals = (refl, tt) }

setenv_lem_example :
    (env : List (List ℕ)) × (setenv (some name_a) (some two_digits) true two_a ≡ some env)
    × (getenv name_a env ≡ (
        if str_eq name_a name_a && not (is_found (getenv name_a two_a) && not true)
        then some two_digits
        else getenv name_a two_a))
setenv_lem_example = setenv_lem name_a name_a two_digits true two_a (refl, tt) name_a-IsName

-- A caller that catches SIGINT and ignores SIGQUIT
abbrev catches_int : Process
catches_int = record {
  blocked = λ n. n == 1;
  action = λ n. record {
    sa_handler = if n == 2 then handler 7 else sig_ign;
    sa_flags = 0;
    sa_mask = λ m. false;
  };
}

system_lem_example :
    Promises catches_int true
      (wait_eintr ∷ waited 0 ∷ [])
      (system (some (b':' ∷ [])) true (wait_eintr ∷ waited 0 ∷ []) catches_int)
system_lem_example = system_lem (some (b':' ∷ [])) true (wait_eintr ∷ waited 0 ∷ []) catches_int

-- Users and groups, each named by the one byte of its number
abbrev by_byte : List ℕ → Option ℕ
by_byte [] = none
by_byte (c ∷ cs) = some c

abbrev named : Option (List ℕ) → Option ℕ
named none = none
named (some name) = by_byte name

abbrev ends : Option (List ℕ) → Bool
ends none = true
ends (some name) = is_end name
