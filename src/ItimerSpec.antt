-- ===== src/ItimerSpec.antt =====
-- timers/itimerspec_from_str.c: a timer's times out of the text "sec[/nsec][:sec[/nsec]]".
use the_linux_programming_in.Prelude.{ℕ, Option, none, some, List, [], ◌∷◌, ◌++◌, ℤ, pos}
use the_linux_programming_in.CString.{cut, Lacks}

pub record Timespec : Type 0 where
  pub tv_sec : ℤ
  pub tv_nsec : ℤ

pub record ItimerSpec : Type 0 where
  pub it_value : Timespec
  pub it_interval : Timespec

module _ (atoi : List ℕ → ℤ) where
  abbrev pub nsec_or_zero : Option (List ℕ) → ℤ
  nsec_or_zero none = pos 0
  nsec_or_zero (some s) = atoi s

  -- One of the two times, from the text with its colon replaced
  unfoldable pub timespec_from_str : List ℕ → Timespec
  unfolding cut
  timespec_from_str s =
      let (sec, nsec) = cut b'/' s in record { tv_sec = atoi sec; tv_nsec = nsec_or_zero nsec }

  unfoldable pub interval_from_str : Option (List ℕ) → Timespec
  unfolding timespec_from_str
  interval_from_str none = record { tv_sec = pos 0; tv_nsec = pos 0 }
  interval_from_str (some s) = timespec_from_str s

  unfoldable pub itimerspec_from_str : List ℕ → ItimerSpec
  unfolding cut timespec_from_str interval_from_str
  itimerspec_from_str str =
      let (value, interval) = cut b':' str in
      record { it_value = timespec_from_str value; it_interval = interval_from_str interval }

-- The text of a time and of a timer, by their parts
pub record Part : Type 0 where
  pub sec : List ℕ
  pub nsec : Option (List ℕ)

abbrev pub nsec_text : Option (List ℕ) → List ℕ
nsec_text none = []
nsec_text (some n) = b'/' ∷ n

abbrev pub part_text : Part → List ℕ
part_text p = p.sec ++ nsec_text p.nsec

abbrev pub interval_text : Option Part → List ℕ
interval_text none = []
interval_text (some p) = b':' ∷ part_text p

abbrev pub LacksAll : ℕ → Option (List ℕ) → Type 0
LacksAll c none = Unit
LacksAll c (some s) = Lacks c s

-- The seconds have no slash, and neither part a colon.
pub record IsPart (p : Part) : Type 0 where
  pub no_slash : Lacks b'/' p.sec
  pub no_colon : Lacks b':' p.sec
  pub no_colon_nsec : LacksAll b':' p.nsec

abbrev pub IsInterval : Option Part → Type 0
IsInterval none = Unit
IsInterval (some p) = IsPart p

module _ (atoi : List ℕ → ℤ) where
  abbrev pub time_of : Part → Timespec
  time_of p = record { tv_sec = atoi p.sec; tv_nsec = nsec_or_zero atoi p.nsec }

  abbrev pub interval_of : Option Part → Timespec
  interval_of none = record { tv_sec = pos 0; tv_nsec = pos 0 }
  interval_of (some p) = time_of p
