-- ===== src/Transfer/Keeps.antt =====
-- Every step of svshm/svshm_xfr_writer.c and svshm/svshm_xfr_reader.c keeps the invariant.
use the_linux_programming_in.Prelude.{ℕ, ◌+◌, ◌<◌, refl, none, some, List}
use the_linux_programming_in.Svsem.{
  Kernel, IsKernel, SemEvent, Called, waits, returned_0, returned_minus_1, default_settings,
  reserve_sem, release_sem,
}
use the_linux_programming_in.Transfer.{
  write_sem, read_sem, Writer, w_reserves, w_reads, w_releases, w_tests, w_reserves_last, w_removes,
  w_exited, w_failed, Reader, r_reserves, r_tests, r_writes, r_releases, r_releases_last, r_exited,
  r_failed, System, writer_called, reader_called, reader_released, writer_read, writer_step,
  reader_step, writer_sem, reader_sem, Step, writer_sems, writer_steps, writer_fails, reader_sems,
  reader_steps, Reach, here, next,
}
use the_linux_programming_in.Transfer.Invariant.{
  IsOrdered, Took, Gave, reserve_sem-Took, release_sem-Gave,
}
use the_linux_programming_in.Transfer.WriterKeeps.{
  writer_takes, writer_takes_last, writer_gives, writer_ends, writer_gives_up, writer_tests,
  writer_reads,
}
use the_linux_programming_in.Transfer.ReaderKeeps.{
  reader_takes, reader_gives, reader_gives_last, reader_gives_up, reader_tests, reader_writes,
}

module _ (k : Kernel) (whole : List ℕ) where
  open k use {State, value}

  module _ (h : IsKernel k) where
    writer_sem-IsOrdered :
        (e : SemEvent) (w : Writer) (s : System State)
        → IsOrdered k whole (record s { writer = w })
        → IsOrdered k whole (writer_sem k e w (record s { writer = w }))
    unfolding writer_sem
    writer_sem-IsOrdered e w_reserves s i =
        called (reserve_sem k default_settings write_sem e s.sems)
          (reserve_sem-Took k h write_sem default_settings e s.sems)
      where
        called :
            (c : Called State)
            → Took k write_sem s.sems c
            → IsOrdered k whole (writer_called w_reads c (record s { writer = w_reserves }))
        called waits t = i
        called (returned_0 t) (v, e, values) = writer_takes k whole s t v e values i
        called returned_minus_1 t = writer_gives_up k whole s w_reserves refl i
    writer_sem-IsOrdered e w_reserves_last s i =
        called (reserve_sem k default_settings write_sem e s.sems)
          (reserve_sem-Took k h write_sem default_settings e s.sems)
      where
        called :
            (c : Called State)
            → Took k write_sem s.sems c
            → IsOrdered k whole (writer_called w_removes c (record s { writer = w_reserves_last }))
        called waits t = i
        called (returned_0 t) (v, e, values) = writer_takes_last k whole s t v e values i
        called returned_minus_1 t = writer_gives_up k whole s w_reserves_last refl i
    writer_sem-IsOrdered e w_releases s i =
        called (release_sem k default_settings read_sem e s.sems)
          (release_sem-Gave k h read_sem default_settings e s.sems)
      where
        called :
            (c : Called State)
            → Gave k read_sem s.sems c
            → IsOrdered k whole (writer_called w_tests c (record s { writer = w_releases }))
        called waits t = i
        called (returned_0 t) values = writer_gives k whole s t values i
        called returned_minus_1 t = writer_gives_up k whole s w_releases refl i
    writer_sem-IsOrdered e w_reads s i = i
    writer_sem-IsOrdered e w_tests s i = i
    writer_sem-IsOrdered e w_removes s i = i
    writer_sem-IsOrdered e w_exited s i = i
    writer_sem-IsOrdered e w_failed s i = i

    reader_sem-IsOrdered :
        (e : SemEvent) (r : Reader) (s : System State)
        → IsOrdered k whole (record s { reader = r })
        → IsOrdered k whole (reader_sem k e r (record s { reader = r }))
    unfolding reader_sem
    reader_sem-IsOrdered e r_reserves s i =
        called (reserve_sem k default_settings read_sem e s.sems)
          (reserve_sem-Took k h read_sem default_settings e s.sems)
      where
        called :
            (c : Called State)
            → Took k read_sem s.sems c
            → IsOrdered k whole (reader_called r_tests c (record s { reader = r_reserves }))
        called waits t = i
        called (returned_0 t) (v, e, values) = reader_takes k whole s t v e values i
        called returned_minus_1 t = reader_gives_up k whole s r_reserves refl i
    reader_sem-IsOrdered e r_releases s i =
        called (release_sem k default_settings write_sem e s.sems)
          (release_sem-Gave k h write_sem default_settings e s.sems)
      where
        called :
            (c : Called State)
            → Gave k write_sem s.sems c
            → IsOrdered k whole (reader_released c (record s { reader = r_releases }))
        called waits t = i
        called (returned_0 t) values = reader_gives k whole s t (s.r_xfrs + 1) values i
        called returned_minus_1 t = reader_gives_up k whole s r_releases refl i
    reader_sem-IsOrdered e r_releases_last s i =
        called (release_sem k default_settings write_sem e s.sems)
          (release_sem-Gave k h write_sem default_settings e s.sems)
      where
        called :
            (c : Called State)
            → Gave k write_sem s.sems c
            → IsOrdered k whole (reader_called r_exited c (record s { reader = r_releases_last }))
        called waits t = i
        called (returned_0 t) values = reader_gives_last k whole s t values i
        called returned_minus_1 t = reader_gives_up k whole s r_releases_last refl i
    reader_sem-IsOrdered e r_tests s i = i
    reader_sem-IsOrdered e r_writes s i = i
    reader_sem-IsOrdered e r_exited s i = i
    reader_sem-IsOrdered e r_failed s i = i

    writer_step-IsOrdered :
        (n : ℕ) (w : Writer) (s : System State)
        → 0 < n
        → IsOrdered k whole (record s { writer = w })
        → IsOrdered k whole (writer_step (some n) w (record s { writer = w }))
    unfolding writer_step
    writer_step-IsOrdered n w_reads s p i = writer_reads k whole s n p i
    writer_step-IsOrdered n w_tests s p i = writer_tests k whole s i
    writer_step-IsOrdered n w_removes s p i = writer_ends k whole s i
    writer_step-IsOrdered n w_reserves s p i = i
    writer_step-IsOrdered n w_releases s p i = i
    writer_step-IsOrdered n w_reserves_last s p i = i
    writer_step-IsOrdered n w_exited s p i = i
    writer_step-IsOrdered n w_failed s p i = i

    writer_step-none-IsOrdered :
        (w : Writer) (s : System State)
        → IsOrdered k whole (record s { writer = w })
        → IsOrdered k whole (writer_step none w (record s { writer = w }))
    unfolding writer_step writer_read
    writer_step-none-IsOrdered w_reads s i = writer_gives_up k whole s w_reads refl i
    writer_step-none-IsOrdered w_tests s i = writer_tests k whole s i
    writer_step-none-IsOrdered w_removes s i = writer_ends k whole s i
    writer_step-none-IsOrdered w_reserves s i = i
    writer_step-none-IsOrdered w_releases s i = i
    writer_step-none-IsOrdered w_reserves_last s i = i
    writer_step-none-IsOrdered w_exited s i = i
    writer_step-none-IsOrdered w_failed s i = i

    reader_step-IsOrdered :
        (n : ℕ) (r : Reader) (s : System State)
        → IsOrdered k whole (record s { reader = r })
        → IsOrdered k whole (reader_step n r (record s { reader = r }))
    unfolding reader_step
    reader_step-IsOrdered n r_tests s i = reader_tests k whole s i
    reader_step-IsOrdered n r_writes s i = reader_writes k whole s n i
    reader_step-IsOrdered n r_reserves s i = i
    reader_step-IsOrdered n r_releases s i = i
    reader_step-IsOrdered n r_releases_last s i = i
    reader_step-IsOrdered n r_exited s i = i
    reader_step-IsOrdered n r_failed s i = i

    pub Step-IsOrdered :
        {s t : System State} → Step k s t → IsOrdered k whole s → IsOrdered k whole t
    Step-IsOrdered {s} (writer_sems e) i = writer_sem-IsOrdered e s.writer s i
    Step-IsOrdered {s} (writer_steps n p l) i = writer_step-IsOrdered n s.writer s p i
    Step-IsOrdered {s} writer_fails i = writer_step-none-IsOrdered s.writer s i
    Step-IsOrdered {s} (reader_sems e) i = reader_sem-IsOrdered e s.reader s i
    Step-IsOrdered {s} (reader_steps n) i = reader_step-IsOrdered n s.reader s i

    pub Reach-IsOrdered :
        {s t : System State} → Reach k s t → IsOrdered k whole s → IsOrdered k whole t
    Reach-IsOrdered here i = i
    Reach-IsOrdered (next r st) i = Step-IsOrdered st (Reach-IsOrdered r i)
