-- ===== src/SemInit/Order.antt =====
-- The order of the calls in svsem/svsem_good_init.c: first the initialisation, then the operations.
use the_linux_programming_in.Prelude.{
  ℕ, suc, ◌≡◌, ◌≢◌, refl, ◌⊎◌, inl, inr, Bool, true, false, Option, none, some, arith, ◌==◌,
  if◌then◌else◌, if-at, ℤ, pos,
}
use the_linux_programming_in.SemInit.{
  Place, creates, sets, noops, gets, operates, succeeded, failed, polls, SemSet, State, Event,
  made_with, call_fails, operation, create, operated, poll, move, run, start, Reach, here, next,
}

-- What holds of process `i` at a place, if process `c` has created the set
abbrev Fits : ℕ → ℕ → Place → SemSet → Type 0
Fits c i creates s = i ≢ c
Fits c i sets s = (i ≡ c) × (s.otime ≡ false)
Fits c i noops s = (i ≡ c) × (s.otime ≡ false) × (s.value ≡ 0)
Fits c i gets s = i ≢ c
Fits c i (polls j) s = i ≢ c
Fits c i operates s = s.otime ≡ true
Fits c i succeeded s = s.otime ≡ true
Fits c i failed s = Unit

abbrev Early : Place → Type 0
Early creates = Unit
Early failed = Unit
Early p = ⊥

record Made (c : ℕ) (s : State) : Type 0 where
  exists : s.set.made ≡ true
  fits : (i : ℕ) → Fits c i (s.place i) s.set

abbrev IsOrdered : State → Type 0
IsOrdered s = ((s.set.made ≡ false) × ((i : ℕ) → Early (s.place i))) ⊎ ((c : ℕ) × Made c s)

otime_kept :
    (c j : ℕ) (q : Place) (s : SemSet) (v : ℕ)
    → s.otime ≡ true
    → Fits c j q s
    → Fits c j q (record s { value = v; otime = true })
otime_kept c j creates s v o g = g
otime_kept c j q s v o g = ground arith

-- The creator's semop() concerns no other process.
own :
    (c i j : ℕ) (q : Place) (s : SemSet) (v : ℕ)
    → j ≢ i
    → i ≡ c
    → Fits c j q s
    → Fits c j q (record s { value = v; otime = true })
own c i j creates s v d o g = g
own c i j q s v d o g = ground arith

-- A semop() that is performed, or waits
operated-Fits :
    (c i j : ℕ) (p_before p_after : Place) (q : Place) (s : SemSet) (o : Option ℕ)
    → s.made ≡ true
    → Fits c i p_before s
    → Fits c j q s
    → ((v : ℕ) → Fits c i p_after (record s { value = v; otime = true }))
    → ((v : ℕ) → Fits c j q (record s { value = v; otime = true }))
    → (((operated p_before p_after s o).1.made ≡ true)
        × Fits c i (operated p_before p_after s o).0 (operated p_before p_after s o).1)
      × Fits c j q (operated p_before p_after s o).1
operated-Fits c i j p_before p_after q s none m h g x y = ((m, h), g)
operated-Fits c i j p_before p_after q s (some v) m h g x y = ((m, x v), y v)

-- A call of process `i` after the set was created, and another process
move-Fits :
    (c i j : ℕ) (op : ℤ) (e : Event) (p q : Place) (s : SemSet)
    → j ≢ i
    → s.made ≡ true
    → Fits c i p s
    → Fits c j q s
    → (((move op e p s).1.made ≡ true) × Fits c i (move op e p s).0 (move op e p s).1)
      × Fits c j q (move op e p s).1
unfolding move create poll
move-Fits c i j op (made_with v) operates q s d m h g =
    operated-Fits c i j operates succeeded q s (operation op s.value) m h g (λ _. refl)
      (λ v. otime_kept c j q s v h g)
move-Fits c i j op (made_with v) noops q s d m h g =
    operated-Fits c i j noops operates q s (operation (pos 0) s.value) m h g (λ _. refl)
      (λ v. own c i j q s v d h.0 g)
move-Fits c i j op (made_with v) creates creates s d m h g = ground arith
move-Fits c i j op call_fails creates creates s d m h g = ground arith
move-Fits c i j op e p q s d m h g = ground arith

move-fails :
    (op : ℤ) (p : Place) (s : SemSet)
    → s.made ≡ false
    → Early p
    → ((move op call_fails p s).1.made ≡ false) × Early (move op call_fails p s).0
unfolding move
move-fails op creates s m h = (m, tt)
move-fails op p s m h = ground arith

Early-Fits : (c j : ℕ) (q : Place) (s : SemSet) → j ≢ c → Early q → Fits c j q s
Early-Fits c j creates s d h = d
Early-Fits c j failed s d h = tt
Early-Fits c j q s d h = absurd h

-- The call with which process `i` creates the set, or fails
first-IsOrdered :
    (op : ℤ) (i : ℕ) (e : Event) (p : Place) (f : ℕ → Place) (s : SemSet)
    → s.made ≡ false
    → Early p
    → ((j : ℕ) → Early (f j))
    → IsOrdered
        (record { set = (move op e p s).1; place = λ j. if j == i then (move op e p s).0 else f j })
unfolding move create
first-IsOrdered op i call_fails creates f s m h g =
    inl (m, λ j. if-at (λ _ q. Early q) i j failed (f j) tt (λ _. g j))
first-IsOrdered op i call_fails failed f s m h g =
    inl (m, λ j. if-at (λ _ q. Early q) i j failed (f j) tt (λ _. g j))
first-IsOrdered op i (made_with v) creates f s m h g = inr (
  i,
  record {
    exists = ground (arith, m);
    fits = λ j.
        if-at (λ k q. Fits i k q (create v s).1) i j (create v s).0 (f j) (ground (arith, m))
          (λ d. Early-Fits i j (f j) (create v s).1 d (g j));
  },
)
first-IsOrdered op i (made_with v) failed f s m h g =
    inl (m, λ j. if-at (λ _ q. Early q) i j failed (f j) tt (λ _. g j))
first-IsOrdered op i e p f s m h g = absurd h

run-IsOrdered :
    (op : ℕ → ℤ) (i : ℕ) (e : Event) (s : State) → IsOrdered s → IsOrdered (run op i e s)
unfolding run
run-IsOrdered op i e s (inl (m, h)) = first-IsOrdered (op i) i e (s.place i) s.place s.set m (h i) h
run-IsOrdered op i e s (inr (c, m)) =
    let both = λ (j : ℕ) (d : j ≢ i).
      move-Fits c i j (op i) e (s.place i) (s.place j) s.set d m.exists (m.fits i) (m.fits j) in
    let other = both (suc i) (λ q. omega (arith, q)) in
    inr (
      c,
      record {
        exists = other.0.0;
        fits = λ j.
            if-at (λ k q. Fits c k q (move (op i) e (s.place i) s.set).1) i j
              (move (op i) e (s.place i) s.set).0 (s.place j) other.0.1 (λ d. (both j d).1);
      },
    )

Reach-IsOrdered : {op : ℕ → ℤ} {s t : State} → IsOrdered s → Reach op s t → IsOrdered t
Reach-IsOrdered h here = h
Reach-IsOrdered {op} h (next {t} r i e) = run-IsOrdered op i e t (Reach-IsOrdered h r)

-- Between the creation of the set and the semop() that shows it to the others
abbrev pub initialises : Place → Bool
initialises sets = true
initialises noops = true
initialises p = false

-- About to perform the operation of the command line, or behind it
abbrev pub uses_set : Place → Bool
uses_set operates = true
uses_set succeeded = true
uses_set p = false

abbrev pub at_noops : Place → Bool
at_noops noops = true
at_noops p = false

-- One process initialises, what it has set stays, and no other one operates before.
abbrev pub Safe : ℕ → ℕ → Place → Place → SemSet → Type 0
Safe i j p q s =
    ((initialises p ≡ false) ⊎ ((initialises q ≡ false) ⊎ (i ≡ j)))
    × ((uses_set p ≡ false) ⊎ ((s.otime ≡ true) × (initialises q ≡ false)))
    × ((at_noops p ≡ false) ⊎ (operation (pos 0) s.value ≡ some 0))

Fits-Safe : (c i j : ℕ) (p q : Place) (s : SemSet) → Fits c i p s → Fits c j q s → Safe i j p q s
Fits-Safe c i j creates creates s h g = ground arith
Fits-Safe c i j p q s h g = ground arith

Early-Safe : (i j : ℕ) (p q : Place) (s : SemSet) → Early p → Early q → Safe i j p q s
Early-Safe i j creates creates s h g = (inl refl, inl refl, inl refl)
Early-Safe i j p q s h g = ground arith

-- For any number of processes with any operations, whatever calls fail and whatever value a new semaphore
-- has: at most one process is between the creation of the set and its own semop(); once a process is about
-- to operate, or has operated, that semop() is done and no process is between the two any more; and that
-- semop() never waits.
pub initialised_first :
    (op : ℕ → ℤ) (set : SemSet) (s : State) (i j : ℕ)
    → set.made ≡ false
    → Reach op (start set) s
    → Safe i j (s.place i) (s.place j) s.set
initialised_first op set s i j m r = both (Reach-IsOrdered (inl (m, λ _. tt)) r)
  where
    both : IsOrdered s → Safe i j (s.place i) (s.place j) s.set
    both (inl (m, h)) = Early-Safe i j (s.place i) (s.place j) s.set (h i) (h j)
    both (inr (c, m)) = Fits-Safe c i j (s.place i) (s.place j) s.set (m.fits i) (m.fits j)
