-- ===== src/Transfer/Invariant.antt =====
-- The invariant of svshm/svshm_xfr_writer.c and svshm/svshm_xfr_reader.c together, and that every step
-- keeps it.
use the_linux_programming_in.Prelude.{
  ℕ, zero, suc, ◌+◌, ◌≤◌, ◌<◌, ◌≡◌, refl, ◌⊎◌, inl, inr, Bool, true, false, ◌||◌, List, [], ◌++◌,
  take, length, ◌==◌, if◌then◌else◌, Bool-cases,
}
use the_linux_programming_in.Svsem.{
  Kernel, IsKernel, SemEvent, performed, interrupted, sem_error, Settings, Called, waits,
  returned_0, returned_minus_1, reserve_sem, release_sem,
}
use the_linux_programming_in.Transfer.{
  write_sem, read_sem, Writer, w_reserves, w_reads, w_releases, w_tests, w_reserves_last, w_removes,
  w_exited, w_failed, Reader, r_reserves, r_tests, r_writes, r_releases, r_releases_last, r_exited,
  r_failed, System,
}

-- The turn that a program holds: it took one from a semaphore and has not given it on.
abbrev pub w_turn : Writer → ℕ
w_turn w_reads = 1
w_turn w_releases = 1
w_turn w_removes = 1
w_turn w_exited = 1
w_turn w_reserves = 0
w_turn w_tests = 0
w_turn w_reserves_last = 0
w_turn w_failed = 0

abbrev pub r_turn : Reader → ℕ
r_turn r_tests = 1
r_turn r_writes = 1
r_turn r_releases = 1
r_turn r_releases_last = 1
r_turn r_reserves = 0
r_turn r_exited = 0
r_turn r_failed = 0

abbrev pub fails : Writer → Reader → Bool
fails w_failed r = true
fails w r_failed = true
fails w r = false

-- The block in the memory was read from the input and not yet written to the output.
abbrev pub w_full : Writer → Bool
w_full w_releases = true
w_full w = false

abbrev pub r_full : Reader → Bool
r_full r_tests = true
r_full r_writes = true
r_full r = false

-- The writer is behind the read() of its last round, as far as its place tells.
abbrev pub w_late : Writer → Bool
w_late w_tests = true
w_late w_reserves_last = true
w_late w_removes = true
w_late w_exited = true
w_late w = false

abbrev pub w_stops : Writer → Bool
w_stops w_reserves = false
w_stops w_reads = false
w_stops w = true

abbrev pub w_behind : Writer → Bool
w_behind w_reserves_last = true
w_behind w_removes = true
w_behind w_exited = true
w_behind w = false

abbrev pub w_waits : Writer → Bool
w_waits w_tests = true
w_waits w_reserves_last = true
w_waits w = false

abbrev pub w_over : Writer → Bool
w_over w_removes = true
w_over w_exited = true
w_over w = false

-- The writer will not write into the memory again.
abbrev pub w_done : Writer → Bool
w_done w_failed = true
w_done w = w_late w

abbrev pub r_late : Reader → Bool
r_late r_releases_last = true
r_late r_exited = true
r_late r = false

abbrev pub r_busy : Reader → Bool
r_busy r_writes = true
r_busy r_releases = true
r_busy r = false

abbrev pub r_over : Reader → Bool
r_over r_exited = true
r_over r = false

module _ (k : Kernel) where
  open k use {State, value}

  abbrev pub full : System State → Bool
  full s = w_full s.writer || r_full s.reader || (value s.sems read_sem == 1)

  abbrev pub flight : System State → List ℕ
  flight s = if full s then take s.cnt s.buf else []

  abbrev pub turns : System State → ℕ
  turns s = value s.sems write_sem + value s.sems read_sem + w_turn s.writer + r_turn s.reader

  -- There is one turn, unless a program that failed has lost it. What was written, the block in the
  -- memory and what is to come are the whole input, unless the turn was lost. The rest says where the
  -- programs stand once the end of the input was met.
  pub record IsOrdered (whole : List ℕ) (s : System State) : Type 0 where
    pub one_turn : turns s ≤ 1
    pub turn_kept : (fails s.writer s.reader ≡ true) ⊎ (turns s ≡ 1)
    pub content :
        (rest : List ℕ) × (s.output ++ (flight s ++ rest) ≡ whole)
        × ((turns s ≡ 0) ⊎ (rest ≡ s.input))
    pub fits : s.cnt ≤ length s.buf
    pub end_met :
        (0 < s.cnt)
        ⊎ (((full s || w_late s.writer || r_late s.reader) ≡ false)
            ⊎ ((s.input ≡ []) × (w_stops s.writer ≡ true)))
    pub behind : (w_behind s.writer ≡ false) ⊎ (s.cnt ≡ 0)
    pub late : (r_late s.reader ≡ false) ⊎ (s.cnt ≡ 0)
    pub busy : (r_busy s.reader ≡ false) ⊎ (0 < s.cnt)
    pub last_turn :
        (value s.sems write_sem ≡ 0)
        ⊎ ((0 < s.cnt) ⊎ ((w_waits s.writer ≡ false) ⊎ (r_over s.reader ≡ true)))
    pub closing :
        (r_late s.reader ≡ false)
        ⊎ ((value s.sems read_sem ≡ 0) × (w_done s.writer ≡ true) × (turns s ≡ 1))
    pub over : (w_over s.writer ≡ false) ⊎ (r_over s.reader ≡ true)

  -- What a reserve or a release of semaphore `n` does, if it returns 0
  abbrev pub Took : ℕ → State → Called State → Type 0
  Took n s waits = Unit
  Took n s (returned_0 t) =
      (v : ℕ) × (value s n ≡ suc v) × ((m : ℕ) → value t m ≡ (if m == n then v else value s m))
  Took n s returned_minus_1 = Unit

  abbrev pub Gave : ℕ → State → Called State → Type 0
  Gave n s waits = Unit
  Gave n s (returned_0 t) = (m : ℕ) → value t m ≡ (if m == n then value s m + 1 else value s m)
  Gave n s returned_minus_1 = Unit

  module _ (h : IsKernel k) where
    Took-at :
        (n v : ℕ) (b : Settings) (s : State)
        → value s n ≡ v
        → Took n s (reserve_sem k b n performed s)
    unfolding reserve_sem
    Took-at n zero b s e = let none_left = h.down_waits n b.use_sem_undo s e in rw none_left tt
    Took-at n (suc v) b s e =
        let (t, done, values) = h.down n v b.use_sem_undo s e in rw done (v, e, values)

    pub reserve_sem-Took :
        (n : ℕ) (b : Settings) (e : SemEvent) (s : State) → Took n s (reserve_sem k b n e s)
    unfolding reserve_sem
    reserve_sem-Took n b performed s = Took-at n (value s n) b s refl
    reserve_sem-Took n b interrupted s = elim (Bool-cases b.retry_on_eintr) [
      | inl r ↦ rw r tt
      | inr r ↦ rw r tt
    ]
    reserve_sem-Took n b sem_error s = tt

    pub release_sem-Gave :
        (n : ℕ) (b : Settings) (e : SemEvent) (s : State) → Gave n s (release_sem k b n e s)
    unfolding release_sem
    release_sem-Gave n b performed s =
        let (t, done, values) = h.up n b.use_sem_undo s in rw done values
    release_sem-Gave n b interrupted s = tt
    release_sem-Gave n b sem_error s = tt
