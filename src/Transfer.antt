-- ===== src/Transfer.antt =====
-- svshm/svshm_xfr_writer.c and svshm/svshm_xfr_reader.c: two programs that hand a stream of bytes over
-- through shared memory, in turns that two semaphores give. A state of both, and what each does next.
pub mod Invariant
pub mod WriterKeeps
pub mod ReaderKeeps
pub mod Keeps
pub mod Progress
pub mod Delivery
use the_linux_programming_in.Prelude.{
  ℕ, zero, suc, ◌+◌, ◌≤◌, ◌<◌, ◌≡◌, Bool, true, false, Option, none, some, List, [], ◌∷◌, ◌++◌,
  take, drop, length, ◌==◌, if◌then◌else◌,
}
use the_linux_programming_in.Svsem.{
  Kernel, SemEvent, Settings, Called, waits, returned_0, returned_minus_1, default_settings,
  init_sem_available, init_sem_in_use, reserve_sem, release_sem,
}

abbrev pub write_sem : ℕ
write_sem = 0

abbrev pub read_sem : ℕ
read_sem = 1

abbrev pub buf_size : ℕ
buf_size = 1024

-- Where the writer stands: in the loop before reserveSem(), read(), releaseSem() and the test of
-- `cnt`; behind the loop before its reserveSem() and before the objects are removed; or it has ended,
-- with success or with an error.
pub data Writer : Type 0 where
  w_reserves w_reads w_releases w_tests w_reserves_last w_removes w_exited w_failed : Writer

-- The reader: in the loop before reserveSem(), the test of `cnt`, write() and releaseSem(); before the
-- releaseSem() behind the loop; or it has ended.
pub data Reader : Type 0 where
  r_reserves r_tests r_writes r_releases r_releases_last r_exited r_failed : Reader

-- The semaphores, `struct shmseg`, the two programs with what they count, the bytes that are still to
-- come from standard input, and those that were written to standard output.
pub record System (S : Type 0) : Type 0 where
  pub sems : S
  pub cnt : ℕ
  pub buf : List ℕ
  pub writer : Writer
  pub w_bytes : ℕ
  pub w_xfrs : ℕ
  pub reader : Reader
  pub r_bytes : ℕ
  pub r_xfrs : ℕ
  pub input : List ℕ
  pub output : List ℕ

module _ {S : Type 0} where
  abbrev pub to_writer : Writer → System S → System S
  to_writer pc s = record s { writer = pc }

  abbrev pub to_reader : Reader → System S → System S
  to_reader pc s = record s { reader = pc }

  -- The writer goes on by what its function on semaphores came to, errExit() being its failure.
  abbrev pub writer_called : Writer → Called S → System S → System S
  writer_called pc waits s = s
  writer_called pc (returned_0 t) s = record s { sems = t; writer = pc }
  writer_called pc returned_minus_1 s = to_writer w_failed s

  abbrev pub reader_called : Reader → Called S → System S → System S
  reader_called pc waits s = s
  reader_called pc (returned_0 t) s = record s { sems = t; reader = pc }
  reader_called pc returned_minus_1 s = to_reader r_failed s

  -- The end of a round of the reader's loop, `xfrs++` included
  abbrev pub reader_released : Called S → System S → System S
  reader_released waits s = s
  reader_released (returned_0 t) s = record s {
    sems = t;
    reader = r_reserves;
    r_xfrs = s.r_xfrs + 1;
  }
  reader_released returned_minus_1 s = to_reader r_failed s

  -- `shmp->cnt = read(STDIN_FILENO, shmp->buf, BUF_SIZE)`: at most `n` bytes of the input, at its end
  -- none; `none` is an error.
  unfoldable pub writer_read : Option ℕ → System S → System S
  writer_read none s = to_writer w_failed s
  writer_read (some n) s =
      let bytes = take n s.input in
      record s {
        cnt = length bytes;
        buf = bytes ++ drop (length bytes) s.buf;
        input = drop n s.input;
        writer = w_releases;
      }

  -- `if (shmp->cnt == 0) break`, or the increments of the loop
  unfoldable pub writer_test : System S → System S
  writer_test s =
      if s.cnt == 0
      then to_writer w_reserves_last s
      else record s { writer = w_reserves; w_xfrs = s.w_xfrs + 1; w_bytes = s.w_bytes + s.cnt }

  -- The steps of the writer that are no calls on semaphores
  unfoldable pub writer_step : Option ℕ → Writer → System S → System S
  unfolding writer_read writer_test
  writer_step r w_reads s = writer_read r s
  writer_step r w_tests s = writer_test s
  writer_step r w_removes s = to_writer w_exited s
  writer_step r w_reserves s = s
  writer_step r w_releases s = s
  writer_step r w_reserves_last s = s
  writer_step r w_exited s = s
  writer_step r w_failed s = s

  -- `if (shmp->cnt == 0) break; bytes += shmp->cnt`
  unfoldable pub reader_test : System S → System S
  reader_test s =
      if s.cnt == 0
      then to_reader r_releases_last s
      else record s { reader = r_writes; r_bytes = s.r_bytes + s.cnt }

  -- `if (write(STDOUT_FILENO, shmp->buf, shmp->cnt) != shmp->cnt) fatal(…)`, where write() takes `n`
  -- bytes, or none at an error
  unfoldable pub reader_write : ℕ → System S → System S
  reader_write n s =
      if n == s.cnt
      then record s { output = s.output ++ take s.cnt s.buf; reader = r_releases }
      else record s { output = s.output ++ take n (take s.cnt s.buf); reader = r_failed }

  -- The steps of the reader that are no calls on semaphores
  unfoldable pub reader_step : ℕ → Reader → System S → System S
  unfolding reader_test reader_write
  reader_step n r_tests s = reader_test s
  reader_step n r_writes s = reader_write n s
  reader_step n r_reserves s = s
  reader_step n r_releases s = s
  reader_step n r_releases_last s = s
  reader_step n r_exited s = s
  reader_step n r_failed s = s

module _ (k : Kernel) where
  open k use {State}

  -- The writer's calls on semaphores, by the place where it stands
  unfoldable pub writer_sem : SemEvent → Writer → System State → System State
  unfolding reserve_sem release_sem
  writer_sem e w_reserves s =
      writer_called w_reads (reserve_sem k default_settings write_sem e s.sems) s
  writer_sem e w_releases s =
      writer_called w_tests (release_sem k default_settings read_sem e s.sems) s
  writer_sem e w_reserves_last s =
      writer_called w_removes (reserve_sem k default_settings write_sem e s.sems) s
  writer_sem e w_reads s = s
  writer_sem e w_tests s = s
  writer_sem e w_removes s = s
  writer_sem e w_exited s = s
  writer_sem e w_failed s = s

  unfoldable pub reader_sem : SemEvent → Reader → System State → System State
  unfolding reserve_sem release_sem
  reader_sem e r_reserves s =
      reader_called r_tests (reserve_sem k default_settings read_sem e s.sems) s
  reader_sem e r_releases s = reader_released (release_sem k default_settings write_sem e s.sems) s
  reader_sem e r_releases_last s =
      reader_called r_exited (release_sem k default_settings write_sem e s.sems) s
  reader_sem e r_tests s = s
  reader_sem e r_writes s = s
  reader_sem e r_exited s = s
  reader_sem e r_failed s = s

  -- The state as the writer begins its loop, by what `initSemAvailable` and `initSemInUse` gave
  abbrev pub started : State → List ℕ → List ℕ → System State
  started sems memory input = record {
    sems = sems;
    cnt = 0;
    buf = memory;
    writer = w_reserves;
    w_bytes = 0;
    w_xfrs = 0;
    reader = r_reserves;
    r_bytes = 0;
    r_xfrs = 0;
    input = input;
    output = [];
  }

  unfoldable pub init_second : Option State → Option State
  unfolding init_sem_in_use
  init_second none = none
  init_second (some s) = init_sem_in_use k read_sem s

  unfoldable pub init_sems : State → Option State
  unfolding init_second init_sem_available
  init_sems s = init_second (init_sem_available k write_sem s)

  -- One step of one of the programs; the scheduler, the signals and the sizes of the transfers are
  -- free, a read() asking for `BUF_SIZE` bytes.
  pub data Step (s : System State) : System State → Type 0 where
    writer_sems : (e : SemEvent) → Step s (writer_sem e s.writer s)
    writer_steps : (n : ℕ) → 0 < n → n ≤ buf_size → Step s (writer_step (some n) s.writer s)
    writer_fails : Step s (writer_step none s.writer s)
    reader_sems : (e : SemEvent) → Step s (reader_sem e s.reader s)
    reader_steps : (n : ℕ) → Step s (reader_step n s.reader s)

  pub data Reach (s : System State) : System State → Type 0 where
    here : Reach s s
    next : {t u : System State} → Reach s t → Step t u → Reach s u
