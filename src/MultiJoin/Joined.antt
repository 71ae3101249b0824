-- ===== src/MultiJoin/Joined.antt =====
-- threads/thread_multijoin.c joins all threads.
use the_linux_programming_in.Prelude.{
  ℕ, zero, suc, ◌+◌, ◌<◌, ◌≡◌, ◌≢◌, refl, ap, ◌∙◌, ◌⊎◌, inl, inr, Bool, true, false, Option, none,
  some, List, [], ◌∷◌, arith, Bool-cases,
}
use the_linux_programming_in.MultiJoin.{
  Place, works, holds, marked, signals, returned, joined, MainPlace, tests_live, locks,
  tests_unjoined, waits, relocks, joins, unlocks, exited, State, at, thread_at, thread_step, scan,
  main_at, start, Reach,
}
use the_linux_programming_in.MultiJoin.Sound.{
  total, with_mutex, to_signal, over, not_joined, main_mutex, IsSound, total-put, total_at,
  Reach-IsSound,
}

total-zero :
    (ps : List Place) (k : ℕ) (p : Place) → total not_joined ps ≡ 0 → at k ps ≡ some p → p ≡ joined
unfolding at
total-zero [] k p h a = absurd (ground (arith, a))
total-zero (joined ∷ ps) zero p h a = ground (arith, a)
total-zero (q ∷ ps) (suc k) p h a = total-zero ps k p (omega (arith, h)) a
total-zero (q ∷ ps) zero p h a = absurd (ground (arith, h))

unjoined-zero : (ps : List Place) → total not_joined ps ≡ 0 → total to_signal ps + total over ps ≡ 0
unjoined-zero [] h = refl
unjoined-zero (joined ∷ ps) h = omega (arith, unjoined-zero ps (omega (arith, h)))
unjoined-zero (q ∷ ps) h = absurd (ground (arith, h))

-- The main thread or a thread has a step.
abbrev pub has_step : Option State → Bool
has_step none = false
has_step (some t) = true

abbrev pub Moves : State → Type 0
Moves s = (has_step (main_at s.main s) ≡ true) ⊎ ((k : ℕ) × (has_step (thread_step k s) ≡ true))

-- A thread that is at one of the places that `f` counts moves, if each such place has a step.
found-Moves :
    (f : Place → ℕ) (s : State)
    → 0 < total f s.threads
    → ((k : ℕ) (p : Place)
        → 0 < f p
        → at k s.threads ≡ some p
        → has_step (thread_at k (some p) s) ≡ true)
    → Moves s
unfolding thread_step
found-Moves f s h g =
    let (k, p, e, w) = total_at f s.threads h in
    inr (k, ap (λ o. has_step (thread_at k o s)) e ∙ g k p w e)

owner-Moves : (s : State) → 0 < total with_mutex s.threads → Moves s
unfolding thread_at
owner-Moves s h = found-Moves with_mutex s h step
  where
    step :
        (k : ℕ) (p : Place)
        → 0 < with_mutex p
        → at k s.threads ≡ some p
        → has_step (thread_at k (some p) s) ≡ true
    step k holds w e = refl
    step k marked w e = refl
    step k p w e = absurd (ground (arith, w))

-- While the main thread is asleep
asleep-Moves :
    (s : State)
    → s.locked ≡ false
    → total over s.threads ≡ 0
    → 0 < total not_joined s.threads
    → Moves s
unfolding thread_at
asleep-Moves s l o h = found-Moves not_joined s h step
  where
    step :
        (k : ℕ) (p : Place)
        → 0 < not_joined p
        → at k s.threads ≡ some p
        → has_step (thread_at k (some p) s) ≡ true
    step k works w e = rw l refl
    step k holds w e = refl
    step k marked w e = refl
    step k signals w e = refl
    step k returned w e = absurd (omega (arith, total-put over k returned works s.threads e, o))
    step k joined w e = absurd (ground (arith, w))

-- The main thread at an index of the loop: where it waits, the thread there has a step.
scan-Moves :
    (k : ℕ) (o : Option Place) (s : State)
    → at k s.threads ≡ o
    → (has_step (scan k o s) ≡ true) ⊎ (has_step (thread_step k s) ≡ true)
unfolding scan thread_step thread_at
scan-Moves k (some marked) s e = inr (ap (λ x. has_step (thread_at k x s)) e)
scan-Moves k (some signals) s e = inr (ap (λ x. has_step (thread_at k x s)) e)
scan-Moves k o s e = inl (ground arith)

locked-Moves : (s : State) → IsSound s → s.locked ≡ true → main_mutex s.main ≡ 0 → Moves s
locked-Moves s i l m = owner-Moves s (ground (arith, i.mutex, l, m))

main-Moves : (m : MainPlace) (s : State) → s.main ≡ m → IsSound s → m ≢ exited → Moves s
unfolding main_at
main-Moves tests_live s e i d = inl (rw e refl)
main-Moves locks s e i d = elim (Bool-cases s.locked) [
  | inl l ↦ locked-Moves s i l (rw e refl)
  | inr l ↦ inl (rw (e, l) refl)
]
main-Moves relocks s e i d = elim (Bool-cases s.locked) [
  | inl l ↦ locked-Moves s i l (rw e refl)
  | inr l ↦ inl (rw (e, l) refl)
]
main-Moves tests_unjoined s e i d = inl (ground (arith, e))
main-Moves waits s e i d = elim (Bool-cases s.locked) [
  | inl l ↦ locked-Moves s i l (rw e refl)
  | inr l ↦ asleep-Moves s l (ground (arith, i.asleep, e)) (ground (arith, i.wants, i.live, e))
]
main-Moves (joins k) s e i d = elim (scan-Moves k (at k s.threads) s refl) [
  | inl h ↦ inl (ap (λ m. has_step (main_at m s)) e ∙ h)
  | inr h ↦ inr (k, h)
]
main-Moves unlocks s e i d = inl (rw e refl)
main-Moves exited s e i d = absurd (d refl)

module _ (tot_threads : ℕ) (s : State) (r : Reach (start tot_threads) s) where
  -- In any interleaving, whatever waits end for no reason, if no call fails: once the main thread has exited
  -- it has joined each thread, after which none is live and none unjoined.
  pub all_joined :
      s.main ≡ exited
      → (s.num_live ≡ 0)
        × (s.num_unjoined ≡ 0)
        × ((k : ℕ) (p : Place) → at k s.threads ≡ some p → p ≡ joined)
  all_joined e =
      let i = Reach-IsSound r in
      let zero_live : s.num_live ≡ 0 = ground (arith, i.ended, e) in
      let none_left : total not_joined s.threads ≡ 0 = omega (arith, zero_live, i.live) in
      (
        zero_live,
        omega (arith, i.unjoined, unjoined-zero s.threads none_left),
        λ k p a. total-zero s.threads k p none_left a,
      )

  -- In any interleaving, if no call fails, as long as the main thread has not exited, it or a thread has a
  -- step other than a wait that ends for no reason: no signal is lost, and they do not block each other.
  pub never_stuck : s.main ≢ exited → Moves s
  never_stuck d = main-Moves s.main s refl (Reach-IsSound r) d
