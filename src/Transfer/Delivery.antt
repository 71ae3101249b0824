-- ===== src/Transfer/Delivery.antt =====
-- What svshm/svshm_xfr_writer.c and svshm/svshm_xfr_reader.c do together: exclusion, the delivery of the
-- input, and that they never block each other.
use mathlib.Core.Path.{subst}
use the_linux_programming_in.Prelude.{
  ◌≢◌, ℕ, zero, suc, ◌+◌, ◌≤◌, ◌≡◌, refl, sym, ◌∙◌, ◌⊎◌, inl, inr, true, false, Option, none, some,
  List, [], ◌++◌, arith,
}
use mathlib.Core.List.{append-nil}
use the_linux_programming_in.Svsem.{Kernel, IsKernel}
use the_linux_programming_in.Transfer.{
  write_sem, read_sem, Writer, w_reserves, w_reads, w_releases, w_tests, w_reserves_last, w_removes,
  w_exited, w_failed, Reader, r_reserves, r_tests, r_writes, r_releases, r_releases_last, r_exited,
  r_failed, System, Reach, here, next,
}
use the_linux_programming_in.Transfer.Invariant.{
  w_turn, r_turn, fails, w_over, r_over, full, flight, IsOrdered,
}
use the_linux_programming_in.Transfer.Keeps.{Step-IsOrdered, Reach-IsOrdered}
use the_linux_programming_in.Transfer.{init_sems, init_second, started}
use the_linux_programming_in.Svsem.{init_sem_available, init_sem_in_use}
use mathlib.Core.List.{append-nil}
use the_linux_programming_in.Transfer.Progress.{
  IsDone, work, Goes, w_reads-Goes, w_releases-Goes, w_tests-Goes, w_removes-Goes, w_reserves-Goes,
  w_reserves_last-Goes, r_reserves-Goes, r_tests-Goes, r_writes-Goes, r_releases-Goes,
  r_releases_last-Goes,
}

module _ (k : Kernel) (h : IsKernel k) where
  open k use {State, value}

  module _ (whole : List ℕ) where
    a_turn :
        (s : System State)
        → fails s.writer s.reader ≡ false
        → w_turn s.writer + r_turn s.reader ≡ 0
        → IsOrdered k whole s
        → (value s.sems write_sem ≡ 1) ⊎ (value s.sems read_sem ≡ 1)
    a_turn s f z i = ground (arith, i.turn_kept)

    -- The writer waits, or has ended.
    waiting_writer :
        (w : Writer) (r : Reader) (s : System State)
        → fails w r ≡ false
        → (w ≡ w_reserves) ⊎ ((w ≡ w_reserves_last) ⊎ (w ≡ w_exited))
        → IsOrdered k whole (record s { writer = w; reader = r })
        → IsDone (record s { writer = w; reader = r })
          ⊎ Goes k h whole (record s { writer = w; reader = r })
    waiting_writer w r_tests s f c i = inr (r_tests-Goes k h whole (record s { writer = w }) i f)
    waiting_writer w r_writes s f c i = inr (r_writes-Goes k h whole (record s { writer = w }) i f)
    waiting_writer w r_releases s f c i =
        inr (r_releases-Goes k h whole (record s { writer = w }) i f)
    waiting_writer w r_releases_last s f c i =
        inr (r_releases_last-Goes k h whole (record s { writer = w }) i f)
    waiting_writer w_reserves r_reserves s f c i =
        elim (a_turn (record s { writer = w_reserves; reader = r_reserves }) f refl i) [
          | inl p ↦ inr (w_reserves-Goes k h whole (record s { reader = r_reserves }) 0 p i f)
          | inr p ↦ inr (r_reserves-Goes k h whole (record s { writer = w_reserves }) 0 p i f)
        ]
    waiting_writer w_reserves_last r_reserves s f c i =
        elim (a_turn (record s { writer = w_reserves_last; reader = r_reserves }) f refl i) [
          | inl p ↦ inr (w_reserves_last-Goes k h whole (record s { reader = r_reserves }) 0 p i f)
          | inr p ↦ inr (r_reserves-Goes k h whole (record s { writer = w_reserves_last }) 0 p i f)
        ]
    waiting_writer w_exited r_reserves s f c i = absurd (ground (arith, i.over))
    waiting_writer w_reserves r_exited s f c i = absurd (ground (arith, i.closing))
    waiting_writer w_reserves_last r_exited s f c i =
        let p : value s.sems write_sem ≡ 1 = ground (arith, i.closing, i.turn_kept) in
        inr (w_reserves_last-Goes k h whole (record s { reader = r_exited }) 0 p i f)
    waiting_writer w_exited r_exited s f c i = inl (refl, refl)
    waiting_writer w r_failed s f c i = absurd (ground arith)
    waiting_writer w_reads r s f c i = absurd (ground arith)
    waiting_writer w_releases r s f c i = absurd (ground arith)
    waiting_writer w_tests r s f c i = absurd (ground arith)
    waiting_writer w_removes r s f c i = absurd (ground arith)
    waiting_writer w_failed r s f c i = absurd (ground arith)

    Goes-at :
        (w : Writer) (s : System State)
        → fails w s.reader ≡ false
        → IsOrdered k whole (record s { writer = w })
        → IsDone (record s { writer = w }) ⊎ Goes k h whole (record s { writer = w })
    Goes-at w_reads s f i = inr (w_reads-Goes k h whole s i f)
    Goes-at w_releases s f i = inr (w_releases-Goes k h whole s i f)
    Goes-at w_tests s f i = inr (w_tests-Goes k h whole s i f)
    Goes-at w_removes s f i = inr (w_removes-Goes k h whole s i f)
    Goes-at w_reserves s f i = waiting_writer w_reserves s.reader s f (inl refl) i
    Goes-at w_reserves_last s f i = waiting_writer w_reserves_last s.reader s f (inr (inl refl)) i
    Goes-at w_exited s f i = waiting_writer w_exited s.reader s f (inr (inr refl)) i
    Goes-at w_failed s f i = absurd (ground arith)

    Reach-append : {s t u : System State} → Reach k s t → Reach k t u → Reach k s u
    Reach-append r here = r
    Reach-append r (next q st) = next (Reach-append r q) st

    ends_in :
        (n : ℕ) (s : System State)
        → work k h whole s ≤ n
        → fails s.writer s.reader ≡ false
        → IsOrdered k whole s
        → (t : System State) × Reach k s t × IsDone t × IsOrdered k whole t
    ends_in zero s l f i = elim (Goes-at s.writer s f i) [
      | inl d ↦ (s, here, d, i)
      | inr (t, st, g, less) ↦ absurd (omega arith)
    ]
    ends_in (suc n) s l f i = elim (Goes-at s.writer s f i) [
      | inl d ↦ (s, here, d, i)
      | inr (t, st, g, less) ↦
          let (u, r, d, j) = ends_in n t (omega arith) g (Step-IsOrdered k whole h st i) in
          (u, Reach-append (next here st) r, d, j)
    ]

    -- Once the reader has ended with success, everything was written.
    exited-output :
        (s : System State) → IsOrdered k whole (record s { reader = r_exited }) → s.output ≡ whole
    exited-output s i =
        let idle : full k (record s { reader = r_exited }) ≡ false = ground (arith, i.closing) in
        let no_input : s.input ≡ [] = ground (arith, i.closing, i.late, i.end_met) in
        let no_rest : i.content.0 ≡ [] = ground (arith, i.closing, i.content.2) in
        sym (append-nil s.output) ∙ rw (idle, no_rest) at i.content.1

    started-IsOrdered :
        (sems : State) (memory : List ℕ)
        → value sems write_sem ≡ 1
        → value sems read_sem ≡ 0
        → IsOrdered k whole (started k sems memory whole)
    started-IsOrdered sems memory w r = record {
      one_turn = omega arith;
      turn_kept = inr (omega arith);
      content = (whole, rw r refl, inr refl);
      fits = omega arith;
      end_met = inr (inl (rw r refl));
      behind = inl refl;
      late = inl refl;
      busy = inl refl;
      last_turn = inr (inr (inl refl));
      closing = inl refl;
      over = inl refl;
    }

  init_second-values :
      (o : Option State) (sems : State)
      → init_second k o ≡ some sems
      → ((t : State) → o ≡ some t → value t write_sem ≡ 1)
      → (value sems write_sem ≡ 1) × (value sems read_sem ≡ 0)
  unfolding init_second init_sem_in_use
  init_second-values none sems e f = absurd (ground arith)
  init_second-values (some t) sems e f =
      let at_w = h.sets read_sem 0 write_sem t sems e in
      let at_r = h.sets read_sem 0 read_sem t sems e in
      let one = f t refl in (ground arith, ground arith)

  init_sems-values :
      (s sems : State)
      → init_sems k s ≡ some sems
      → (value sems write_sem ≡ 1) × (value sems read_sem ≡ 0)
  unfolding init_sems init_sem_available
  init_sems-values s sems e =
      init_second-values (k.set_value write_sem 1 s) sems e
        (λ t q. h.sets write_sem 1 write_sem s t q)

  module _ (s0 sems : State) (memory input : List ℕ) (e : init_sems k s0 ≡ some sems)
      (t : System State) (r : Reach k (started k sems memory input) t) where
    ordered : IsOrdered k input t
    ordered =
        let (w, v) = init_sems-values s0 sems e in
        Reach-IsOrdered k input h r (started-IsOrdered input sems memory w v)

    -- With semaphores that do what semop(2) and semctl(2) say, and that were initialised: in every state
    -- that the two programs reach, whatever the scheduler, the signals, errors and the sizes of the reads
    -- are, what the reader has written is a beginning of the writer's input, and all
    -- of it, once the reader has ended with success.
    pub output_begins_input :
        ((rest : List ℕ) × (t.output ++ rest ≡ input))
        × ((t.reader ≢ r_exited) ⊎ (t.output ≡ input))
    output_begins_input =
        ((flight k t ++ ordered.content.0, ordered.content.1), all t.reader ordered)
      where
        all :
            (q : Reader)
            → IsOrdered k input (record t { reader = q })
            → (q ≢ r_exited) ⊎ (t.output ≡ input)
        all r_exited i = inr (exited-output input t i)
        all r_reserves i = inl (λ q. grind arith)
        all r_tests i = inl (λ q. grind arith)
        all r_writes i = inl (λ q. grind arith)
        all r_releases i = inl (λ q. grind arith)
        all r_releases_last i = inl (λ q. grind arith)
        all r_failed i = inl (λ q. grind arith)

    -- With semaphores that do what semop(2) and semctl(2) say, and that were initialised: in every state
    -- that the two programs reach, at most one of them holds the turn to use the shared memory, and the
    -- writer is removing the memory and the semaphores, or has removed them, only if the reader has given
    -- up its last turn, behind which it only exits with success.
    pub turns_exclude :
        (w_turn t.writer + r_turn t.reader ≤ 1)
        × ((w_over t.writer ≡ false) ⊎ (r_over t.reader ≡ true))
    turns_exclude = (omega (arith, ordered.one_turn), ordered.over)

    -- With semaphores that do what semop(2) and semctl(2) say, and that were initialised: from every state
    -- that the two programs reach, as long as neither has failed, there is a run to a state in which both
    -- have ended with success and the whole input was written.
    pub transfer_completes :
        fails t.writer t.reader ≡ false
        → (u : System State) × Reach k t u × IsDone u × (u.output ≡ input)
    transfer_completes f =
        let (u, q, d, i) = ends_in input (work k h input t) t (omega arith) f ordered in
        (
          u,
          q,
          d,
          exited-output input u (subst (λ p. IsOrdered k input (record u { reader = p })) d.1 i),
        )
