-- ===== src/ProtocolTests.antt =====
-- The theorems on threads/prod_cons_cv.c and on svshm/svshm_xfr_writer.c with svshm/svshm_xfr_reader.c at
-- concrete inputs.
use the_linux_programming_in.Prelude.{
  ℕ, zero, suc, ◌+◌, ◌-◌, ◌≤◌, ◌≡◌, ◌≢◌, ◌⊎◌, refl, sym, ap, false, true, Option, none, some, List,
  [], ◌∷◌, ◌++◌, arith, ℤ, pos, negsuc, leb, ◌==◌, if◌then◌else◌,
}
use the_linux_programming_in.Svsem.{
  performed, interrupted, Kernel, IsKernel, reserve_sem, init_sem_available, init_sem_in_use,
}
use the_linux_programming_in.Transfer.{
  System, started, init_sems, init_second, writer_sem, writer_sems, writer_steps, Reach, here, next,
  writer_step, writer_read, r_exited,
}
use the_linux_programming_in.Transfer.Invariant.{w_turn, r_turn, w_over, r_over, fails}
use the_linux_programming_in.Transfer.Progress.{IsDone}
use the_linux_programming_in.Transfer.Delivery.{
  output_begins_input, turns_exclude, transfer_completes,
}
use the_linux_programming_in.ProdCons
use the_linux_programming_in.ProdCons.{
  running, exit_success, State, start, consumer_locks, consumer_tests, producer_locks, p_lock,
  c_lock, c_test,
}
use the_linux_programming_in.ProdCons.Completion.{units_conserved}

-- A set of semaphores that are not undone
abbrev put : ℕ → ℕ → (ℕ → ℕ) → ℕ → ℕ
put n v s m = if m == n then v else s m

abbrev operation : ℕ → ℤ → (ℕ → ℕ) → Option (ℕ → ℕ)
operation n (pos zero) s = if s n == 0 then some s else none
operation n (pos (suc m)) s = some (put n (s n + suc m) s)
operation n (negsuc m) s = if leb (suc m) (s n) then some (put n (s n - suc m) s) else none

abbrev semaphores : Kernel
semaphores = record {
  State = ℕ → ℕ;
  value = λ s n. s n;
  operate = λ op s. operation op.sem_num op.sem_op s;
  set_value = λ n v s. some (put n v s);
}

abbrev at_or_0 : Option (ℕ → ℕ) → ℕ → ℕ
at_or_0 none m = 0
at_or_0 (some s) m = s m

semaphores-IsKernel : IsKernel semaphores
semaphores-IsKernel = record {
  up = λ n u s. (put n (s n + 1) s, refl, λ m. grind arith);
  down = λ n v u s e. (put n (s n - 1) s, ground (arith, e), λ m. grind (arith, e));
  down_waits = λ n u s e. ground (arith, e);
  zero = λ n u s e. (s, ground (arith, e), λ m. refl);
  zero_waits = λ n u s e. ground (arith, e);
  sets = λ n v m s t e. ap (λ (o : Option (ℕ → ℕ)). at_or_0 o m) (sym e);
}

abbrev free : ℕ → ℕ
free m = 0

-- As `initSemAvailable` and `initSemInUse` leave them
abbrev turns : ℕ → ℕ
turns = put 1 0 (put 0 1 free)

abbrev two_bytes : List ℕ
two_bytes = 7 ∷ 9 ∷ []

abbrev at_start : System (ℕ → ℕ)
at_start = started semaphores turns [] two_bytes

-- The writer, interrupted once, has its turn
abbrev has_turn : System (ℕ → ℕ)
has_turn =
    writer_sem semaphores performed
      (writer_sem semaphores interrupted at_start.writer at_start).writer
      (writer_sem semaphores interrupted at_start.writer at_start)

-- and has read a byte.
abbrev has_read : System (ℕ → ℕ)
has_read = writer_step (some 1) has_turn.writer has_turn

runs : Reach semaphores at_start has_read
runs =
    next (next (next here (writer_sems interrupted)) (writer_sems performed))
      (writer_steps 1 (omega arith) (omega arith))

set_up : init_sems semaphores free ≡ some turns
unfolding init_sems init_second init_sem_available init_sem_in_use
set_up = refl

output_begins_input_example :
    ((rest : List ℕ) × (has_read.output ++ rest ≡ two_bytes))
    × ((has_read.reader ≢ r_exited) ⊎ (has_read.output ≡ two_bytes))
output_begins_input_example =
    output_begins_input semaphores semaphores-IsKernel free turns [] two_bytes set_up has_read runs

turns_exclude_example :
    (w_turn has_read.writer + r_turn has_read.reader ≤ 1)
    × ((w_over has_read.writer ≡ false) ⊎ (r_over has_read.reader ≡ true))
turns_exclude_example =
    turns_exclude semaphores semaphores-IsKernel free turns [] two_bytes set_up has_read runs

has_read-goes : fails has_read.writer has_read.reader ≡ false
unfolding writer_sem reserve_sem writer_step writer_read
has_read-goes = refl

transfer_completes_example :
    (u : System (ℕ → ℕ)) × Reach semaphores has_read u × IsDone u × (u.output ≡ two_bytes)
transfer_completes_example =
    transfer_completes semaphores semaphores-IsKernel free turns [] two_bytes set_up has_read runs
      has_read-goes

-- A consumer that has found nothing and sleeps, and a producer that holds the mutex
abbrev asleep : State
asleep = producer_locks (consumer_tests (consumer_locks (start 1 1 2)))

sleeps : ProdCons.Reach (start 1 1 2) asleep
unfolding consumer_tests
sleeps =
    ProdCons.next
      (ProdCons.next (ProdCons.next ProdCons.here (c_lock refl (omega arith) refl))
        (c_test refl (omega arith)))
      (p_lock refl (omega arith) refl)

units_conserved_example :
    (asleep.units_produced ≡ asleep.units_consumed + asleep.avail)
    × (asleep.units_produced ≤ 2)
    × ((asleep.status ≢ running)
        ⊎ (asleep.p_works + asleep.p_unlocks + asleep.p_unlocks_done + asleep.c_tests
              + asleep.c_unlocks + asleep.c_unlocks_done
            ≤ 1))
    × ((asleep.status ≢ exit_success) ⊎ ((asleep.units_consumed ≡ 2) × (asleep.avail ≡ 0)))
units_conserved_example = units_conserved 1 1 2 (omega arith) asleep sleeps
