-- ===== src/Transfer/WriterKeeps.antt =====
-- The steps of svshm/svshm_xfr_writer.c keep the invariant.
use the_linux_programming_in.Prelude.{
  take-append, take-append-drop, ℕ, zero, suc, ◌+◌, ◌≤◌, ◌<◌, ◌≡◌, refl, sym, ap, ◌∙◌, ◌⊎◌, inl,
  inr, Bool, true, false, some, List, [], ◌∷◌, ◌++◌, take, drop, length, arith, ◌==◌, if◌then◌else◌,
  length-append, Bool-cases,
}
use the_linux_programming_in.Svsem.{Kernel}
use the_linux_programming_in.Transfer.{
  write_sem, read_sem, Writer, w_reserves, w_reads, w_releases, w_tests, w_reserves_last, w_removes,
  w_exited, w_failed, System, writer_read, writer_test,
}
use the_linux_programming_in.Transfer.Invariant.{w_over, full, flight, turns, IsOrdered}

some_or_none : (n : ℕ) (xs : List ℕ) → 0 < n → (0 < length (take n xs)) ⊎ (xs ≡ [])
some_or_none zero xs p = absurd (omega arith)
some_or_none (suc n) [] p = inr refl
some_or_none (suc n) (x ∷ xs) p = inl (omega arith)

drop-nil : (n : ℕ) → drop {A = ℕ} n [] ≡ []
drop-nil zero = refl
drop-nil (suc n) = refl

read_end :
    (n : ℕ) (xs : List ℕ) (seen : Bool)
    → 0 < n
    → (0 < length (take n xs)) ⊎ ((seen ≡ false) ⊎ ((drop n xs ≡ []) × (true ≡ true)))
read_end n xs seen p = elim (some_or_none n xs p) [
  | inl pos ↦ inl pos
  | inr e ↦ inr (inr (ap (λ t. drop n t) e ∙ drop-nil n, refl))
]

module _ (k : Kernel) (whole : List ℕ) where
  open k use {State, value}

  pub writer_takes :
      (s : System State) (t : State) (v : ℕ)
      → value s.sems write_sem ≡ suc v
      → ((m : ℕ) → value t m ≡ (if m == write_sem then v else value s.sems m))
      → IsOrdered k whole (record s { writer = w_reserves })
      → IsOrdered k whole (record s { sems = t; writer = w_reads })
  writer_takes s t v e values i =
      let at_w = values write_sem in
      let at_r = values read_sem in
      let (rest, all, rest_is) = i.content in
      record {
        one_turn = ground (arith, i.one_turn);
        turn_kept = ground (arith, i.turn_kept);
        content = ground (arith, i.content);
        fits = i.fits;
        end_met = ground (arith, i.end_met, i.one_turn);
        behind = inl refl;
        late = i.late;
        busy = i.busy;
        last_turn = inr (inr (inl refl));
        closing = ground (arith, i.closing, i.one_turn, i.late, i.end_met);
        over = inl refl;
      }

  pub writer_takes_last :
      (s : System State) (t : State) (v : ℕ)
      → value s.sems write_sem ≡ suc v
      → ((m : ℕ) → value t m ≡ (if m == write_sem then v else value s.sems m))
      → IsOrdered k whole (record s { writer = w_reserves_last })
      → IsOrdered k whole (record s { sems = t; writer = w_removes })
  writer_takes_last s t v e values i =
      let at_w = values write_sem in
      let at_r = values read_sem in
      record {
        one_turn = ground (arith, i.one_turn);
        turn_kept = ground (arith, i.turn_kept);
        content = ground (arith, i.content);
        fits = i.fits;
        end_met = ground (arith, i.end_met);
        behind = ground (arith, i.behind);
        late = i.late;
        busy = i.busy;
        last_turn = inr (inr (inl refl));
        closing = ground (arith, i.closing, i.one_turn, i.late, i.end_met);
        over = ground (arith, i.behind, i.last_turn);
      }

  pub writer_gives :
      (s : System State) (t : State)
      → ((m : ℕ) → value t m ≡ (if m == read_sem then value s.sems m + 1 else value s.sems m))
      → IsOrdered k whole (record s { writer = w_releases })
      → IsOrdered k whole (record s { sems = t; writer = w_tests })
  writer_gives s t values i =
      let at_w = values write_sem in
      let at_r = values read_sem in
      record {
        one_turn = ground (arith, i.one_turn);
        turn_kept = ground (arith, i.turn_kept);
        content = ground (arith, i.content, i.one_turn);
        fits = i.fits;
        end_met = ground (arith, i.end_met);
        behind = inl refl;
        late = i.late;
        busy = i.busy;
        last_turn = ground (arith, i.one_turn);
        closing = ground (arith, i.closing, i.one_turn, i.late, i.end_met);
        over = inl refl;
      }

  pub writer_ends :
      (s : System State)
      → IsOrdered k whole (record s { writer = w_removes })
      → IsOrdered k whole (record s { writer = w_exited })
  writer_ends s i = record {
    one_turn = i.one_turn;
    turn_kept = ground (arith, i.turn_kept);
    content = ground (arith, i.content);
    fits = i.fits;
    end_met = ground (arith, i.end_met);
    behind = ground (arith, i.behind);
    late = i.late;
    busy = i.busy;
    last_turn = inr (inr (inl refl));
    closing = ground (arith, i.closing, i.one_turn, i.late, i.end_met);
    over = ground (arith, i.over);
  }

  lost :
      (s : System State) (w : Writer)
      → IsOrdered k whole (record s { writer = w })
      → (rest : List ℕ) × (s.output ++ (flight k (record s { writer = w_failed }) ++ rest) ≡ whole)
        × ((turns k (record s { writer = w_failed }) ≡ 0) ⊎ (rest ≡ s.input))
  lost s w_releases i = elim (Bool-cases (full k (record s { writer = w_failed }))) [
    | inl f ↦ ground (arith, i.content)
    | inr f ↦ (take s.cnt s.buf ++ i.content.0, rw f (i.content.1), inl (omega (arith, i.one_turn)))
  ]
  lost s w_reserves i = ground (arith, i.content, i.one_turn)
  lost s w_reads i = ground (arith, i.content, i.one_turn)
  lost s w_tests i = ground (arith, i.content, i.one_turn)
  lost s w_reserves_last i = ground (arith, i.content, i.one_turn)
  lost s w_removes i = ground (arith, i.content, i.one_turn)
  lost s w_exited i = ground (arith, i.content, i.one_turn)
  lost s w_failed i = i.content

  pub writer_gives_up :
      (s : System State) (w : Writer)
      → w_over w ≡ false
      → IsOrdered k whole (record s { writer = w })
      → IsOrdered k whole (record s { writer = w_failed })
  writer_gives_up s w live i = record {
    one_turn = omega (arith, i.one_turn);
    turn_kept = inl refl;
    content = lost s w i;
    fits = i.fits;
    end_met = ground (arith, i.end_met);
    behind = inl refl;
    late = i.late;
    busy = i.busy;
    last_turn = inr (inr (inl refl));
    closing = ground (arith, i.closing, i.one_turn, i.late, i.end_met);
    over = inl refl;
  }

  pub writer_tests :
      (s : System State)
      → IsOrdered k whole (record s { writer = w_tests })
      → IsOrdered k whole (writer_test (record s { writer = w_tests }))
  unfolding writer_test
  writer_tests s i = elim (Bool-cases (s.cnt == 0)) [
    | inl e ↦ rw e (record {
      one_turn = i.one_turn;
      turn_kept = ground (arith, i.turn_kept);
      content = ground (arith, i.content);
      fits = i.fits;
      end_met = ground (arith, i.end_met);
      behind = ground arith;
      late = i.late;
      busy = i.busy;
      last_turn = i.last_turn;
      closing = ground (arith, i.closing, i.one_turn, i.late, i.end_met);
      over = inl refl;
    })
    | inr e ↦ rw e (record {
      one_turn = i.one_turn;
      turn_kept = ground (arith, i.turn_kept);
      content = ground (arith, i.content);
      fits = i.fits;
      end_met = ground (arith, i.end_met);
      behind = inl refl;
      late = i.late;
      busy = i.busy;
      last_turn = ground arith;
      closing = ground (arith, i.closing, i.one_turn, i.late, i.end_met);
      over = inl refl;
    })
  ]

  length-read :
      (n : ℕ) (input buf : List ℕ)
      → length (take n input) ≤ length (take n input ++ drop (length (take n input)) buf)
  length-read n input buf =
      omega (arith, length-append (take n input) (drop (length (take n input)) buf))

  pub writer_reads :
      (s : System State) (n : ℕ)
      → 0 < n
      → IsOrdered k whole (record s { writer = w_reads })
      → IsOrdered k whole (writer_read (some n) (record s { writer = w_reads }))
  unfolding writer_read
  writer_reads s n pos i =
      let bytes = take n s.input in
      let idle : full k (record s { writer = w_reads }) ≡ false = ground (arith, i.one_turn) in
      let (rest, all, now) = i.content in
      let same : rest ≡ s.input = ground (arith, now) in
      record {
        one_turn = i.one_turn;
        turn_kept = ground (arith, i.turn_kept);
        content = (
          drop n s.input,
          ap (λ t. s.output ++ t)
                (ap (λ t. t ++ drop n s.input) (take-append bytes (drop (length bytes) s.buf))
                  ∙ take-append-drop n s.input
                  ∙ sym same)
              ∙ ap (λ (f : Bool). s.output ++ ((if f then take s.cnt s.buf else []) ++ rest))
                  (sym idle)
              ∙ all,
          inr refl,
        );
        fits = length-read n s.input s.buf;
        end_met = read_end n s.input _ pos;
        behind = inl refl;
        late = ground (arith, i.late, i.end_met);
        busy = ground (arith, i.busy, i.one_turn);
        last_turn = inr (inr (inl refl));
        closing = ground (arith, i.closing, i.one_turn, i.late, i.end_met);
        over = inl refl;
      }
