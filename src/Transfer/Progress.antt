-- ===== src/Transfer/Progress.antt =====
-- svshm/svshm_xfr_writer.c and svshm/svshm_xfr_reader.c hand over the whole input, and never block each
-- other.
use mathlib.Core.Path.{subst}
use the_linux_programming_in.Prelude.{
  ℕ, suc, ◌+◌, ◌*◌, ◌<◌, ◌≡◌, ap, false, ◌||◌, some, List, [], ◌∷◌, take, drop, length, arith, ◌==◌,
  if◌then◌else◌,
}
use the_linux_programming_in.Svsem.{
  Kernel, IsKernel, performed, Called, returned_0, default_settings, of_operation, reserve_sem,
  release_sem,
}
use the_linux_programming_in.Transfer.{
  write_sem, read_sem, Writer, w_reserves, w_reads, w_releases, w_tests, w_reserves_last, w_removes,
  w_exited, w_failed, Reader, r_reserves, r_tests, r_writes, r_releases, r_releases_last, r_exited,
  r_failed, System, writer_called, reader_called, reader_released, writer_read, writer_test,
  writer_step, reader_test, reader_write, reader_step, writer_sem, reader_sem, Step, writer_sems,
  writer_steps, reader_sems, reader_steps,
}
use the_linux_programming_in.Transfer.Invariant.{fails, IsOrdered}

-- Work that is left: for the bytes to come, and by the places of the programs
abbrev pub w_cost : Writer → ℕ → ℕ
w_cost w_reserves cnt = 6
w_cost w_reads cnt = 5
w_cost w_releases cnt = if cnt == 0 then 4 else 13
w_cost w_tests cnt = if cnt == 0 then 3 else 7
w_cost w_reserves_last cnt = 2
w_cost w_removes cnt = 1
w_cost w_exited cnt = 0
w_cost w_failed cnt = 0

abbrev pub r_cost : Reader → ℕ → ℕ → ℕ
r_cost r_reserves cnt r = if (r == 0) || (cnt == 0) then 3 else 7
r_cost r_tests cnt r = if cnt == 0 then 2 else 6
r_cost r_writes cnt r = 5
r_cost r_releases cnt r = 4
r_cost r_releases_last cnt r = 1
r_cost r_exited cnt r = 0
r_cost r_failed cnt r = 0

abbrev pub IsDone : {S : Type 0} → System S → Type 0
IsDone s = (s.writer ≡ w_exited) × (s.reader ≡ r_exited)

length-drop_pos :
    (xs : List ℕ)
    → 9 * length (drop 1 xs) + (if length (take 1 xs) == 0 then 4 else 13) < 9 * length xs + 5
length-drop_pos [] = omega arith
length-drop_pos (x ∷ xs) = omega arith

module _ (k : Kernel) (h : IsKernel k) (whole : List ℕ) where
  open k use {State, value}

  abbrev pub work : System State → ℕ
  work s =
      9 * length s.input + w_cost s.writer s.cnt + r_cost s.reader s.cnt (value s.sems read_sem)

  -- Some step, with no failure, that leaves less work
  abbrev pub Goes : System State → Type 0
  Goes s = (t : System State) × Step k s t × (fails t.writer t.reader ≡ false) × (work t < work s)

  released :
      (n : ℕ) (s : State)
      → (t : State) × (release_sem k default_settings n performed s ≡ returned_0 t)
        × ((m : ℕ) → value t m ≡ (if m == n then value s m + 1 else value s m))
  unfolding release_sem
  released n s = let (t, e, values) = h.up n false s in (t, ap of_operation e, values)

  reserved :
      (n v : ℕ) (s : State)
      → value s n ≡ suc v
      → (t : State) × (reserve_sem k default_settings n performed s ≡ returned_0 t)
        × ((m : ℕ) → value t m ≡ (if m == n then v else value s m))
  unfolding reserve_sem
  reserved n v s p = let (t, e, values) = h.down n v false s p in (t, ap of_operation e, values)

  module _ (s : System State) where
    abbrev w_at : Writer → System State
    w_at w = record s { writer = w }

    abbrev r_at : Reader → System State
    r_at r = record s { reader = r }

    pub w_reads-Goes :
        IsOrdered k whole (w_at w_reads) → fails w_reads s.reader ≡ false → Goes (w_at w_reads)
    unfolding writer_step writer_read
    w_reads-Goes i f = (_, writer_steps 1 (omega arith) (omega arith), ground arith, less)
      where
        less : work (writer_read (some 1) (w_at w_reads)) < work (w_at w_reads)
        less = ground (arith, i.one_turn, length-drop_pos s.input)

    pub w_releases-Goes :
        IsOrdered k whole (w_at w_releases)
        → fails w_releases s.reader ≡ false
        → Goes (w_at w_releases)
    unfolding writer_sem
    w_releases-Goes i f =
        let (t, e, values) = released read_sem s.sems in
        let at_r = values read_sem in
        (
          record s { sems = t; writer = w_tests },
          subst (Step k (w_at w_releases))
              (ap (λ (c : Called State). writer_called w_tests c (w_at w_releases)) e)
              (writer_sems performed),
          ground arith,
          ground (arith, i.one_turn),
        )

    pub w_tests-Goes :
        IsOrdered k whole (w_at w_tests) → fails w_tests s.reader ≡ false → Goes (w_at w_tests)
    unfolding writer_step writer_test
    w_tests-Goes i f = (
      writer_test (w_at w_tests),
      writer_steps 1 (omega arith) (omega arith),
      ground arith,
      ground arith,
    )

    pub w_removes-Goes :
        IsOrdered k whole (w_at w_removes)
        → fails w_removes s.reader ≡ false
        → Goes (w_at w_removes)
    unfolding writer_step
    w_removes-Goes i f =
        (w_at w_exited, writer_steps 1 (omega arith) (omega arith), ground arith, ground arith)

    pub w_reserves-Goes :
        (v : ℕ)
        → value s.sems write_sem ≡ suc v
        → IsOrdered k whole (w_at w_reserves)
        → fails w_reserves s.reader ≡ false
        → Goes (w_at w_reserves)
    unfolding writer_sem
    w_reserves-Goes v p i f =
        let (t, e, values) = reserved write_sem v s.sems p in
        let at_r = values read_sem in
        (
          record s { sems = t; writer = w_reads },
          subst (Step k (w_at w_reserves))
              (ap (λ (c : Called State). writer_called w_reads c (w_at w_reserves)) e)
              (writer_sems performed),
          ground arith,
          ground arith,
        )

    pub w_reserves_last-Goes :
        (v : ℕ)
        → value s.sems write_sem ≡ suc v
        → IsOrdered k whole (w_at w_reserves_last)
        → fails w_reserves_last s.reader ≡ false
        → Goes (w_at w_reserves_last)
    unfolding writer_sem
    w_reserves_last-Goes v p i f =
        let (t, e, values) = reserved write_sem v s.sems p in
        let at_r = values read_sem in
        (
          record s { sems = t; writer = w_removes },
          subst (Step k (w_at w_reserves_last))
              (ap (λ (c : Called State). writer_called w_removes c (w_at w_reserves_last)) e)
              (writer_sems performed),
          ground arith,
          ground arith,
        )

    pub r_reserves-Goes :
        (v : ℕ)
        → value s.sems read_sem ≡ suc v
        → IsOrdered k whole (r_at r_reserves)
        → fails s.writer r_reserves ≡ false
        → Goes (r_at r_reserves)
    unfolding reader_sem
    r_reserves-Goes v p i f =
        let (t, e, values) = reserved read_sem v s.sems p in
        let at_r = values read_sem in
        (
          record s { sems = t; reader = r_tests },
          subst (Step k (r_at r_reserves))
              (ap (λ (c : Called State). reader_called r_tests c (r_at r_reserves)) e)
              (reader_sems performed),
          ground arith,
          ground arith,
        )

    pub r_tests-Goes :
        IsOrdered k whole (r_at r_tests) → fails s.writer r_tests ≡ false → Goes (r_at r_tests)
    unfolding reader_step reader_test
    r_tests-Goes i f = (reader_test (r_at r_tests), reader_steps 0, ground arith, ground arith)

    pub r_writes-Goes :
        IsOrdered k whole (r_at r_writes) → fails s.writer r_writes ≡ false → Goes (r_at r_writes)
    unfolding reader_step reader_write
    r_writes-Goes i f =
        (reader_write s.cnt (r_at r_writes), reader_steps s.cnt, ground arith, ground arith)

    pub r_releases-Goes :
        IsOrdered k whole (r_at r_releases)
        → fails s.writer r_releases ≡ false
        → Goes (r_at r_releases)
    unfolding reader_sem
    r_releases-Goes i f =
        let (t, e, values) = released write_sem s.sems in
        let at_r = values read_sem in
        (
          record s { sems = t; reader = r_reserves; r_xfrs = s.r_xfrs + 1 },
          subst (Step k (r_at r_releases))
              (ap (λ (c : Called State). reader_released c (r_at r_releases)) e)
              (reader_sems performed),
          ground arith,
          ground (arith, i.one_turn),
        )

    pub r_releases_last-Goes :
        IsOrdered k whole (r_at r_releases_last)
        → fails s.writer r_releases_last ≡ false
        → Goes (r_at r_releases_last)
    unfolding reader_sem
    r_releases_last-Goes i f =
        let (t, e, values) = released write_sem s.sems in
        (
          record s { sems = t; reader = r_exited },
          subst (Step k (r_at r_releases_last))
              (ap (λ (c : Called State). reader_called r_exited c (r_at r_releases_last)) e)
              (reader_sems performed),
          ground arith,
          ground arith,
        )
