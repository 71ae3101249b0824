-- ===== src/MultiJoin/Sound.antt =====
-- An invariant of threads/thread_multijoin.c.
use the_linux_programming_in.Prelude.{
  ℕ, zero, suc, ◌+◌, ◌<◌, ◌≡◌, refl, ap, ◌⊎◌, inl, inr, Bool, true, false, Option, none, some, List,
  [], ◌∷◌, ◌==◌, if◌then◌else◌, arith, Bool-cases,
}
use the_linux_programming_in.MultiJoin.{
  Place, works, holds, marked, signals, returned, joined, MainPlace, locks, tests_unjoined, waits,
  relocks, joins, unlocks, exited, State, at, put, thread_at, thread_step, scan, main_at, all_work,
  start, Step, main_moves, thread_moves, wakes, Reach, here, next,
}

-- How many threads there are at some places, each place counted by a number
abbrev pub total : (Place → ℕ) → List Place → ℕ
total f [] = 0
total f (p ∷ ps) = f p + total f ps

abbrev pub with_mutex : Place → ℕ
with_mutex holds = 1
with_mutex marked = 1
with_mutex p = 0

abbrev pub to_signal : Place → ℕ
to_signal marked = 1
to_signal signals = 1
to_signal p = 0

abbrev pub over : Place → ℕ
over returned = 1
over p = 0

abbrev pub not_joined : Place → ℕ
not_joined joined = 0
not_joined p = 1

abbrev pub main_mutex : MainPlace → ℕ
main_mutex tests_unjoined = 1
main_mutex (joins k) = 1
main_mutex unlocks = 1
main_mutex m = 0

abbrev pub is_asleep : MainPlace → Bool
is_asleep waits = true
is_asleep m = false

-- Behind `numLive > 0`, before the first join
abbrev pub wants_thread : MainPlace → Bool
wants_thread locks = true
wants_thread tests_unjoined = true
wants_thread waits = true
wants_thread relocks = true
wants_thread m = false

abbrev pub has_exited : MainPlace → Bool
has_exited exited = true
has_exited m = false

pub record IsSound (s : State) : Type 0 where
  pub mutex : total with_mutex s.threads + main_mutex s.main ≡ (if s.locked then 1 else 0)
  pub unjoined : s.num_unjoined ≡ total to_signal s.threads + total over s.threads
  pub live : s.num_live ≡ total not_joined s.threads
  pub asleep : (is_asleep s.main ≡ false) ⊎ (total over s.threads ≡ 0)
  pub wants : (wants_thread s.main ≡ false) ⊎ (0 < s.num_live)
  pub ended : (has_exited s.main ≡ false) ⊎ (s.num_live ≡ 0)

pub total-put :
    (f : Place → ℕ) (k : ℕ) (p q : Place) (ps : List Place)
    → at k ps ≡ some p
    → total f (put k q ps) + f p ≡ total f ps + f q
unfolding at put
total-put f k p q [] h = absurd (ground (arith, h))
total-put f zero p q (r ∷ ps) h = let e : r ≡ p = ground (arith, h) in omega (arith, ap f e)
total-put f (suc k) p q (r ∷ ps) h = omega (arith, total-put f k p q ps h)

pub total_at :
    (f : Place → ℕ) (ps : List Place)
    → 0 < total f ps
    → (k : ℕ) × (p : Place) × (at k ps ≡ some p) × (0 < f p)
unfolding at
total_at f [] h = absurd (omega (arith, h))
total_at f (p ∷ ps) h = elim (Bool-cases (f p == 0)) [
  | inl z ↦ let (k, q, e, l) = total_at f ps (ground (arith, h, z)) in (suc k, q, e, l)
  | inr z ↦ (0, p, refl, ground (arith, z))
]

-- What thread `k` changes when it goes from `p` to `q`
put_totals :
    (k : ℕ) (p q : Place) (ps : List Place)
    → at k ps ≡ some p
    → (total with_mutex (put k q ps) + with_mutex p ≡ total with_mutex ps + with_mutex q)
      × (total to_signal (put k q ps) + to_signal p ≡ total to_signal ps + to_signal q)
      × (total over (put k q ps) + over p ≡ total over ps + over q)
      × (total not_joined (put k q ps) + not_joined p ≡ total not_joined ps + not_joined q)
put_totals k p q ps a = (
  total-put with_mutex k p q ps a,
  total-put to_signal k p q ps a,
  total-put over k p q ps a,
  total-put not_joined k p q ps a,
)

abbrev Keeps : Option State → Type 0
Keeps none = Unit
Keeps (some t) = IsSound t

thread-Keeps :
    (k : ℕ) (o : Option Place) (s : State)
    → at k s.threads ≡ o
    → IsSound s
    → Keeps (thread_at k o s)
unfolding thread_at
thread-Keeps k none s a i = tt
thread-Keeps k (some works) s a i = elim (Bool-cases s.locked) [
  | inl l ↦ rw l tt
  | inr l ↦
      let (m, u, o, n) = put_totals k works holds s.threads a in
      rw l record {
        mutex = ground (arith, m, i.mutex, l);
        unjoined = omega (arith, u, o, i.unjoined);
        live = omega (arith, n, i.live);
        asleep = ground (arith, o, i.asleep);
        wants = i.wants;
        ended = i.ended;
      }
]
thread-Keeps k (some holds) s a i =
    let (m, u, o, n) = put_totals k holds marked s.threads a in
    record {
      mutex = ground (arith, m, i.mutex);
      unjoined = omega (arith, u, o, i.unjoined);
      live = omega (arith, n, i.live);
      asleep = ground (arith, o, i.asleep);
      wants = i.wants;
      ended = i.ended;
    }
thread-Keeps k (some marked) s a i =
    let (m, u, o, n) = put_totals k marked signals s.threads a in
    record {
      mutex = ground (arith, m, i.mutex);
      unjoined = omega (arith, u, o, i.unjoined);
      live = omega (arith, n, i.live);
      asleep = ground (arith, o, i.asleep);
      wants = i.wants;
      ended = i.ended;
    }
thread-Keeps k (some signals) s a i =
    let (m, u, o, n) = put_totals k signals returned s.threads a in
    record {
      mutex = ground (arith, m, i.mutex);
      unjoined = omega (arith, u, o, i.unjoined);
      live = omega (arith, n, i.live);
      asleep = ground arith;
      wants = ground (arith, i.wants);
      ended = ground (arith, i.ended);
    }
thread-Keeps k (some returned) s a i = tt
thread-Keeps k (some joined) s a i = tt

scan-Keeps :
    (k : ℕ) (o : Option Place) (s : State)
    → at k s.threads ≡ o
    → s.main ≡ joins k
    → IsSound s
    → Keeps (scan k o s)
unfolding scan
scan-Keeps k (some marked) s a j i = tt
scan-Keeps k (some signals) s a j i = tt
scan-Keeps k (some returned) s a j i =
    let (m, u, o, n) = put_totals k returned joined s.threads a in
    record {
      mutex = ground (arith, m, i.mutex, j);
      unjoined = omega (arith, u, o, i.unjoined);
      live = omega (arith, n, i.live);
      asleep = inl refl;
      wants = inl refl;
      ended = inl refl;
    }
scan-Keeps k o s a j i = record {
  mutex = ground (arith, i.mutex, j);
  unjoined = i.unjoined;
  live = i.live;
  asleep = inl refl;
  wants = inl refl;
  ended = inl refl;
}

main-Keeps : (m : MainPlace) (s : State) → s.main ≡ m → IsSound s → Keeps (main_at m s)
unfolding main_at
main-Keeps (joins k) s e i = scan-Keeps k (at k s.threads) s refl e i
main-Keeps m s e i = ground (arith, e, i.mutex, i.unjoined, i.live, i.asleep, i.wants, i.ended)

Step-IsSound : {s t : State} → Step s t → IsSound s → IsSound t
unfolding thread_step
Step-IsSound {s} {t} (main_moves e) i = rw e at (main-Keeps s.main s refl i)
Step-IsSound {s} {t} (thread_moves k e) i = rw e at (thread-Keeps k (at k s.threads) s refl i)
Step-IsSound (wakes e) i = record {
  mutex = ground (arith, i.mutex, e);
  unjoined = i.unjoined;
  live = i.live;
  asleep = inl refl;
  wants = inr (ground (arith, i.wants, e));
  ended = inl refl;
}

total-all_work :
    (n : ℕ)
    → (total with_mutex (all_work n) ≡ 0)
      × (total to_signal (all_work n) ≡ 0)
      × (total over (all_work n) ≡ 0)
      × (total not_joined (all_work n) ≡ n)
total-all_work zero = (refl, refl, refl, refl)
total-all_work (suc n) =
    let (m, u, o, l) = total-all_work n in
    (omega (arith, m), omega (arith, u), omega (arith, o), omega (arith, l))

start-IsSound : (n : ℕ) → IsSound (start n)
start-IsSound n =
    let (m, u, o, l) = total-all_work n in
    record {
      mutex = omega (arith, m);
      unjoined = omega (arith, u, o);
      live = omega (arith, l);
      asleep = inl refl;
      wants = inl refl;
      ended = inl refl;
    }

pub Reach-IsSound : {n : ℕ} {s : State} → Reach (start n) s → IsSound s
Reach-IsSound {n} here = start-IsSound n
Reach-IsSound (next r st) = Step-IsSound st (Reach-IsSound r)
