-- ===== src/Transfer/ReaderKeeps.antt =====
-- The steps of svshm/svshm_xfr_reader.c keep the invariant.
use the_linux_programming_in.Prelude.{
  take-append-drop, ℕ, suc, ◌+◌, ◌≡◌, refl, sym, ap, ◌∙◌, ◌⊎◌, inl, inr, true, false, List, ◌++◌,
  take, drop, arith, ◌==◌, if◌then◌else◌, Bool-cases,
}
use mathlib.Core.List.{append_assoc}
use the_linux_programming_in.Svsem.{Kernel}
use the_linux_programming_in.Transfer.{
  write_sem, read_sem, Reader, r_reserves, r_tests, r_writes, r_releases, r_releases_last, r_exited,
  r_failed, System, reader_test, reader_write,
}
use the_linux_programming_in.Transfer.Invariant.{r_over, full, flight, turns, IsOrdered}

module _ (k : Kernel) (whole : List ℕ) where
  open k use {State, value}

  pub reader_takes :
      (s : System State) (t : State) (v : ℕ)
      → value s.sems read_sem ≡ suc v
      → ((m : ℕ) → value t m ≡ (if m == read_sem then v else value s.sems m))
      → IsOrdered k whole (record s { reader = r_reserves })
      → IsOrdered k whole (record s { sems = t; reader = r_tests })
  reader_takes s t v e values i =
      let at_w = values write_sem in
      let at_r = values read_sem in
      record {
        one_turn = ground (arith, i.one_turn);
        turn_kept = ground (arith, i.turn_kept);
        content = ground (arith, i.content, i.one_turn);
        fits = i.fits;
        end_met = ground (arith, i.end_met, i.one_turn);
        behind = i.behind;
        late = inl refl;
        busy = inl refl;
        last_turn = ground (arith, i.last_turn);
        closing = ground (arith, i.closing, i.one_turn, i.late, i.end_met);
        over = ground (arith, i.over);
      }

  pub reader_gives :
      (s : System State) (t : State) (n : ℕ)
      → ((m : ℕ) → value t m ≡ (if m == write_sem then value s.sems m + 1 else value s.sems m))
      → IsOrdered k whole (record s { reader = r_releases })
      → IsOrdered k whole (record s { sems = t; reader = r_reserves; r_xfrs = n })
  reader_gives s t n values i =
      let at_w = values write_sem in
      let at_r = values read_sem in
      record {
        one_turn = ground (arith, i.one_turn);
        turn_kept = ground (arith, i.turn_kept);
        content = ground (arith, i.content, i.one_turn);
        fits = i.fits;
        end_met = ground (arith, i.end_met);
        behind = i.behind;
        late = inl refl;
        busy = inl refl;
        last_turn = ground (arith, i.busy);
        closing = ground (arith, i.closing, i.one_turn, i.late, i.end_met);
        over = ground (arith, i.over);
      }

  pub reader_gives_last :
      (s : System State) (t : State)
      → ((m : ℕ) → value t m ≡ (if m == write_sem then value s.sems m + 1 else value s.sems m))
      → IsOrdered k whole (record s { reader = r_releases_last })
      → IsOrdered k whole (record s { sems = t; reader = r_exited })
  reader_gives_last s t values i =
      let at_w = values write_sem in
      let at_r = values read_sem in
      record {
        one_turn = ground (arith, i.one_turn);
        turn_kept = ground (arith, i.turn_kept);
        content = ground (arith, i.content);
        fits = i.fits;
        end_met = ground (arith, i.end_met);
        behind = i.behind;
        late = i.late;
        busy = inl refl;
        last_turn = inr (inr (inr refl));
        closing = ground (arith, i.closing, i.one_turn, i.late, i.end_met);
        over = inr refl;
      }

  -- A reader that fails before it has written anything
  reader_lost :
      (s : System State) (r : Reader)
      → IsOrdered k whole (record s { reader = r })
      → (rest : List ℕ) × (s.output ++ (flight k (record s { reader = r_failed }) ++ rest) ≡ whole)
        × ((turns k (record s { reader = r_failed }) ≡ 0) ⊎ (rest ≡ s.input))
  reader_lost s r i = elim (Bool-cases (full k (record s { reader = r_failed }))) [
    | inl f ↦ elim (Bool-cases (full k (record s { reader = r }))) [
      | inl g ↦ ground (arith, i.content, i.one_turn)
      | inr g ↦ ground (arith, i.content, i.one_turn)
    ]
    | inr f ↦ elim (Bool-cases (full k (record s { reader = r }))) [
      | inl g ↦ (
        take s.cnt s.buf ++ i.content.0,
        rw f (rw g at i.content.1),
        inl (ground (arith, i.one_turn)),
      )
      | inr g ↦ ground (arith, i.content, i.one_turn)
    ]
  ]

  pub reader_gives_up :
      (s : System State) (r : Reader)
      → r_over r ≡ false
      → IsOrdered k whole (record s { reader = r })
      → IsOrdered k whole (record s { reader = r_failed })
  reader_gives_up s r live i = record {
    one_turn = omega (arith, i.one_turn);
    turn_kept = ground arith;
    content = reader_lost s r i;
    fits = i.fits;
    end_met = ground (arith, i.end_met);
    behind = i.behind;
    late = inl refl;
    busy = inl refl;
    last_turn = ground (arith, i.last_turn);
    closing = ground (arith, i.closing, i.one_turn, i.late, i.end_met);
    over = ground (arith, i.over);
  }

  pub reader_tests :
      (s : System State)
      → IsOrdered k whole (record s { reader = r_tests })
      → IsOrdered k whole (reader_test (record s { reader = r_tests }))
  unfolding reader_test
  reader_tests s i = elim (Bool-cases (s.cnt == 0)) [
    | inl e ↦ rw e (record {
      one_turn = i.one_turn;
      turn_kept = ground (arith, i.turn_kept);
      content = ended e;
      fits = i.fits;
      end_met = ground (arith, i.end_met);
      behind = i.behind;
      late = ground arith;
      busy = inl refl;
      last_turn = i.last_turn;
      closing = ground (arith, i.closing, i.one_turn, i.late, i.end_met);
      over = i.over;
    })
    | inr e ↦ rw e (record {
      one_turn = i.one_turn;
      turn_kept = ground (arith, i.turn_kept);
      content = ground (arith, i.content);
      fits = i.fits;
      end_met = ground (arith, i.end_met);
      behind = i.behind;
      late = inl refl;
      busy = ground arith;
      last_turn = i.last_turn;
      closing = ground (arith, i.closing, i.one_turn, i.late, i.end_met);
      over = i.over;
    })
  ]
    where
      ended :
          (s.cnt == 0) ≡ true
          → (rest : List ℕ) × (s.output
                ++ (flight k (record s { reader = r_releases_last }) ++ rest)
              ≡ whole)
            × ((turns k (record s { reader = r_releases_last }) ≡ 0) ⊎ (rest ≡ s.input))
      ended e =
          let none_left : s.cnt ≡ 0 = ground arith in
          let before : full k (record s { reader = r_tests }) ≡ true = ground arith in
          let idle : full k (record s { reader = r_releases_last }) ≡ false =
            ground (arith, i.one_turn) in
          (i.content.0, rw idle (rw (before, none_left) at i.content.1), i.content.2)

  pub reader_writes :
      (s : System State) (n : ℕ)
      → IsOrdered k whole (record s { reader = r_writes })
      → IsOrdered k whole (reader_write n (record s { reader = r_writes }))
  unfolding reader_write
  reader_writes s n i =
      let block = take s.cnt s.buf in
      let before : full k (record s { reader = r_writes }) ≡ true = ground arith in
      let all = rw before at i.content.1 in
      elim (Bool-cases (n == s.cnt)) [
        | inl e ↦ rw e (
            let idle : full k (record s { reader = r_releases }) ≡ false =
              ground (arith, i.one_turn) in
            record {
              one_turn = i.one_turn;
              turn_kept = ground (arith, i.turn_kept);
              content = (
                i.content.0,
                rw idle (append_assoc s.output block i.content.0 ∙ all),
                i.content.2,
              );
              fits = i.fits;
              end_met = ground (arith, i.end_met);
              behind = i.behind;
              late = inl refl;
              busy = i.busy;
              last_turn = i.last_turn;
              closing = ground (arith, i.closing, i.one_turn, i.late, i.end_met);
              over = i.over;
            })
        | inr e ↦ rw e (
            let idle : full k (record s { reader = r_failed }) ≡ false =
              ground (arith, i.one_turn) in
            record {
              one_turn = omega (arith, i.one_turn);
              turn_kept = ground arith;
              content = (
                drop n block ++ i.content.0,
                rw idle (split block n all),
                inl (omega (arith, i.one_turn)),
              );
              fits = i.fits;
              end_met = ground (arith, i.end_met);
              behind = i.behind;
              late = inl refl;
              busy = inl refl;
              last_turn = ground (arith, i.last_turn);
              closing = ground (arith, i.closing, i.one_turn, i.late, i.end_met);
              over = ground (arith, i.over);
            })
      ]
    where
      split :
          (block : List ℕ) (n : ℕ)
          → s.output ++ (block ++ i.content.0) ≡ whole
          → (s.output ++ take n block) ++ (drop n block ++ i.content.0) ≡ whole
      split block n all =
          append_assoc s.output (take n block) (drop n block ++ i.content.0)
          ∙ ap (λ t. s.output ++ t)
              (sym (append_assoc (take n block) (drop n block) i.content.0)
                ∙ ap (λ t. t ++ i.content.0) (take-append-drop n block))
          ∙ all
