-- ===== src/OneTimeInit/Once.antt =====
-- threads/one_time_init.c calls `init` once.
use the_linux_programming_in.Prelude.{
  zero_or_pos, ℕ, ◌+◌, ◌≤◌, ◌<◌, ◌≡◌, refl, ◌⊎◌, inl, inr, true, false, arith, if◌then◌else◌,
  Bool-cases,
}
use the_linux_programming_in.OneTimeInit.{
  State, start, lock, test, init_return, set_called, unlock, Step, locks, locks_not, at_test,
  from_init, at_set, at_unlock, Reach, here, next,
}

record IsOnce (threads : ℕ) (s : State) : Type 0 where
  holder : s.tests + s.inits + s.sets + s.unlocks ≡ (if s.locked then 1 else 0)
  all : s.outside + s.tests + s.inits + s.sets + s.unlocks ≡ threads
  calls : s.init_calls ≡ (if s.called then 1 else s.inits + s.sets)
  returns : s.init_returns + s.inits ≡ s.init_calls
  late : (s.called ≡ true) ⊎ ((s.unlocks ≡ 0) × (s.returned ≡ 0))
  early : (s.called ≡ false) ⊎ (s.inits + s.sets ≡ 0)

module _ (threads : ℕ) where
  start-IsOnce : IsOnce threads (start threads)
  start-IsOnce = record {
    holder = refl;
    all = omega arith;
    calls = refl;
    returns = refl;
    late = inr (refl, refl);
    early = inl refl;
  }

  Step-IsOnce : {s t : State} → Step false s t → IsOnce threads s → IsOnce threads t
  unfolding test
  Step-IsOnce (locks_not f p) i = absurd (ground arith)
  Step-IsOnce (locks p l) i = ground (arith, i.holder, i.all, i.calls, i.returns, i.late, i.early)
  Step-IsOnce (at_test p) i = ground (arith, i.holder, i.all, i.calls, i.returns, i.late, i.early)
  Step-IsOnce (from_init p) i = ground (arith, i.holder, i.all, i.calls, i.returns, i.late, i.early)
  Step-IsOnce (at_set p) i = ground (arith, i.holder, i.all, i.calls, i.returns, i.late, i.early)
  Step-IsOnce (at_unlock p) i = ground (arith, i.holder, i.all, i.calls, i.returns, i.late, i.early)

  Reach-IsOnce : {s t : State} → Reach false s t → IsOnce threads s → IsOnce threads t
  Reach-IsOnce here i = i
  Reach-IsOnce (next r st) i = Step-IsOnce st (Reach-IsOnce r i)

-- Some steps to the return of a call
abbrev Goes : State → Type 0
Goes s = (t : State) × Reach false s t × (s.returned < t.returned)

before : {s t u : State} → Step false s t → Reach false t u → Reach false s u
before st here = next here st
before st (next r q) = next (before st r) q

Step-Goes : {s t : State} → Step false s t → s.returned ≡ t.returned → Goes t → Goes s
Step-Goes st e (u, r, l) = (u, before st r, omega arith)

unlock-Goes : (s : State) → 0 < s.unlocks → Goes s
unlock-Goes s p = (unlock s, next here (at_unlock p), omega arith)

set_called-Goes : (s : State) → 0 < s.sets → Goes s
set_called-Goes s p = Step-Goes (at_set p) refl (unlock-Goes (set_called s) (omega arith))

init_return-Goes : (s : State) → 0 < s.inits → Goes s
init_return-Goes s p = Step-Goes (from_init p) refl (set_called-Goes (init_return s) (omega arith))

test-Goes : (s : State) → 0 < s.tests → Goes s
unfolding test
test-Goes s p = elim (Bool-cases s.called) [
  | inl c ↦ Step-Goes (at_test p) (ground (arith, c)) (unlock-Goes (test s) (ground (arith, c)))
  | inr c ↦
      Step-Goes (at_test p) (ground (arith, c)) (init_return-Goes (test s) (ground (arith, c)))
]

lock-Goes : (s : State) → 0 < s.outside → s.locked ≡ false → Goes s
lock-Goes s p l = Step-Goes (locks p l) refl (test-Goes (lock s) (omega arith))

inside-Goes : (s : State) → 0 < s.tests + s.inits + s.sets + s.unlocks → Goes s
inside-Goes s p = elim (zero_or_pos s.tests) [
  | inr q ↦ test-Goes s q
  | inl a ↦ elim (zero_or_pos s.inits) [
    | inr q ↦ init_return-Goes s q
    | inl b ↦ elim (zero_or_pos s.sets) [
      | inr q ↦ set_called-Goes s q
      | inl c ↦ unlock-Goes s (omega arith)
    ]
  ]
]

module _ (threads : ℕ) (s : State) (r : Reach false (start threads) s) where
  once : IsOnce threads s
  once = Reach-IsOnce threads r (start-IsOnce threads)

  -- For any number of threads, each of which may call one_time_init() again and again, in any interleaving,
  -- if pthread_mutex_lock() does not fail: `init` was called once at most, and once a call of
  -- one_time_init() has returned, `init` was called and has returned.
  pub init_called_once :
      (s.init_calls ≤ 1) × ((s.returned ≡ 0) ⊎ ((s.init_calls ≡ 1) × (s.init_returns ≡ 1)))
  init_called_once = (
    ground (arith, once.calls, once.holder),
    ground (arith, once.calls, once.returns, once.late, once.early),
  )

  -- In each such state, if there is a thread, there is a run on which one more call returns: the threads do
  -- not block each other.
  call_returns : 0 < threads → Goes s
  call_returns p = elim (Bool-cases s.locked) [
    | inl l ↦ inside-Goes s (ground (arith, once.holder, l))
    | inr l ↦ lock-Goes s (ground (arith, once.holder, once.all, l)) l
  ]
