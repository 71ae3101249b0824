-- ===== src/ProgramTests.antt =====
-- The theorems on svsem/svsem_good_init.c, threads/one_time_init.c, svmsg/svmsg_file_server.c with
-- svmsg/svmsg_file_client.c, filelock/create_pid_file.c and svsem/svsem_op.c at concrete inputs.
use the_linux_programming_in.Prelude.{
  Bool, ℕ, ◌+◌, ◌≤◌, ◌≡◌, ◌⊎◌, refl, false, true, Option, none, some, List, [], ◌∷◌, map, arith, ℤ,
  pos, negsuc,
}
use the_linux_programming_in.Syscall.{ReadResult, got, eof}
use the_linux_programming_in.SemInit
use the_linux_programming_in.SemInit.{made_with, call_fails}
use the_linux_programming_in.SemInit.Order.{Safe, initialised_first}
use the_linux_programming_in.OneTimeInit
use the_linux_programming_in.OneTimeInit.{
  locks, at_test, from_init, at_set, at_unlock, lock, test, init_return, set_called, unlock,
}
use the_linux_programming_in.OneTimeInit.Once.{init_called_once}
use the_linux_programming_in.FileMessages.{
  Request, received, refused, message, client_request, client, serve_request, could_not_open,
}
use the_linux_programming_in.FileMessages.Delivery.{fetch_reports, fetch_counts}
use the_linux_programming_in.PidFile
use the_linux_programming_in.PidFile.{succeeds, fails}
use the_linux_programming_in.SemOps.{parse_ops}
use the_linux_programming_in.SemOps.Specs.{Spec, plus, minus, with_n}
use the_linux_programming_in.SemOps.Text.{parse_ops_lem}

abbrev no_set : SemInit.SemSet
no_set = record { made = false; value = 0; otime = false }

abbrev up : ℕ → ℤ
up i = pos 1

-- Process 3 creates the set, process 4 finds it and looks once, process 3 initialises it.
abbrev two_come : SemInit.State
unfolding SemInit.run
two_come = SemInit.run up 3 (made_with 0) (
    SemInit.run up 4 (made_with 0)
      (SemInit.run up 4 (made_with 0) (SemInit.run up 3 (made_with 7) (SemInit.start no_set))))

initialised_first_example : Safe 3 4 (two_come.place 3) (two_come.place 4) two_come.set
unfolding SemInit.run
initialised_first_example = initialised_first up no_set two_come 3 4 refl (
    SemInit.next
      (SemInit.next (SemInit.next (SemInit.next SemInit.here 3 (made_with 7)) 4 (made_with 0)) 4
        (made_with 0))
      3 (made_with 0))

-- One of two threads has called it, and the other one has the lock.
abbrev first_call : OneTimeInit.State
unfolding test
first_call = lock (unlock (set_called (init_return (test (lock (OneTimeInit.start 2))))))

first_call-reached : OneTimeInit.Reach false (OneTimeInit.start 2) first_call
unfolding test
first_call-reached =
    OneTimeInit.next
      (OneTimeInit.next
        (OneTimeInit.next
          (OneTimeInit.next
            (OneTimeInit.next (OneTimeInit.next OneTimeInit.here (locks (omega arith) refl))
              (at_test (omega arith)))
            (from_init (omega arith)))
          (at_set (omega arith)))
        (at_unlock (omega arith)))
      (locks (omega arith) refl)

init_called_once_example :
    (first_call.init_calls ≤ 1)
    × ((first_call.returned ≡ 0) ⊎ ((first_call.init_calls ≡ 1) × (first_call.init_returns ≡ 1)))
init_called_once_example = init_called_once 2 first_call first_call-reached

-- The file `f` has three bytes; there is no other one.
abbrev reads_abc : List (ReadResult (List ℕ) × Bool)
reads_abc = (got (b'a' ∷ b'b' ∷ []), true) ∷ (got (b'c' ∷ []), true) ∷ (eof, true) ∷ []

abbrev files : List ℕ → Option (List (ReadResult (List ℕ) × Bool))
files [] = none
files (c ∷ cs) = some reads_abc

fetch_counts_example :
    (r : Request) × (client_request 5 (b'f' ∷ []) ≡ some r)
    × (client (map message (serve_request (files r.pathname) true)) ≡ received 3 3)
fetch_counts_example =
    fetch_counts files 5 (b'f' ∷ []) (b'a' ∷ b'b' ∷ b'c' ∷ []) reads_abc (omega arith) refl
      (b'c' ∷ [], refl, ([], refl, refl))

fetch_reports_example :
    (r : Request) × (client_request 5 [] ≡ some r)
    × (client (map message (serve_request (files r.pathname) true)) ≡ refused could_not_open)
fetch_reports_example = fetch_reports files 5 [] (omega arith) tt

-- Process IDs as one character
abbrev digit : ℕ → List ℕ
digit pid = (b'0' + pid) ∷ []

-- Process 2 gets the lock, process 3 does not, process 2 truncates and writes the file.
abbrev one_runs : PidFile.State
unfolding PidFile.run
one_runs = PidFile.run digit false 2 (succeeds 9) (
    PidFile.run digit false 2 (succeeds 0) (
      PidFile.run digit false 3 (succeeds 0) (
        PidFile.run digit false 3 (succeeds 0) (
          PidFile.run digit false 2 (succeeds 0)
            (PidFile.run digit false 2 (succeeds 0) (PidFile.start (b'x' ∷ [])))))))

-- `0-12n` and `1+3`
abbrev takes_12 : Spec
takes_12 = record { num = b'0' ∷ []; sign = minus; amount = b'1' ∷ b'2' ∷ []; flags = with_n ∷ [] }

abbrev adds_3 : Spec
adds_3 = record { num = b'1' ∷ []; sign = plus; amount = b'3' ∷ []; flags = [] }

parse_ops_lem_example :
    parse_ops (b'0' ∷ b'-' ∷ b'1' ∷ b'2' ∷ b'n' ∷ b',' ∷ b'1' ∷ b'+' ∷ b'3' ∷ [])
    ≡ some (
        record { sem_num = 0; sem_op = negsuc 11; ipc_nowait = true; sem_undo = false }
        ∷ record { sem_num = 1; sem_op = pos 3; ipc_nowait = false; sem_undo = false }
        ∷ [])
unfolding parse_ops
parse_ops_lem_example =
    parse_ops_lem takes_12 (adds_3 ∷ [])
      (record {
        num_digits = (refl, tt);
        num_some = omega arith;
        amount_digits = (refl, (refl, tt));
        amount_some = omega arith;
        zero_if_equals = λ e. ground (arith, e);
      })
      (
        record {
          num_digits = (refl, tt);
          num_some = omega arith;
          amount_digits = (refl, tt);
          amount_some = omega arith;
          zero_if_equals = λ e. ground (arith, e);
        },
        tt,
      )
      (omega arith)
