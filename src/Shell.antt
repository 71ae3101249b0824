-- ===== src/Shell.antt =====
-- procexec/system.c: system(3). A process is its signal mask and the actions of its signals; fork() and
-- waitpid() are given by what they return.
use the_linux_programming_in.Prelude.{
  ℕ, ◌≡◌, refl, ap, Bool, true, false, ◌||◌, Option, none, some, List, [], ◌∷◌, arith, ◌==◌,
  if◌then◌else◌,
}

pub data Handler : Type 0 where
  sig_dfl sig_ign : Handler
  handler : ℕ → Handler

-- `struct sigaction`
pub record Action : Type 0 where
  pub sa_handler : Handler
  pub sa_flags : ℕ
  pub sa_mask : ℕ → Bool

pub record Process : Type 0 where
  pub blocked : ℕ → Bool
  pub action : ℕ → Action

abbrev pub sigint : ℕ
sigint = 2

abbrev pub sigquit : ℕ
sigquit = 3

abbrev pub sigchld : ℕ
sigchld = 17

abbrev pub no_signals : ℕ → Bool
no_signals n = false

-- sigaction() and the two uses of sigprocmask()
abbrev pub sigaction : ℕ → Action → Process → Process
sigaction sig a p = record p { action = λ n. if n == sig then a else p.action n }

abbrev pub sig_block : ℕ → Process → Process
sig_block sig p = record p { blocked = λ n. n == sig || p.blocked n }

abbrev pub sig_setmask : (ℕ → Bool) → Process → Process
sig_setmask mask p = record p { blocked = mask }

abbrev pub sa_ignore : Action
sa_ignore = record { sa_handler = sig_ign; sa_flags = 0; sa_mask = no_signals }

abbrev pub sa_default : Action
sa_default = record { sa_handler = sig_dfl; sa_flags = 0; sa_mask = no_signals }

-- The caller with SIGCHLD blocked, SIGINT and SIGQUIT ignored
unfoldable pub prepare : Process → Process
prepare p = sigaction sigquit sa_ignore (sigaction sigint sa_ignore (sig_block sigchld p))

-- `if (saOrig.sa_handler != SIG_IGN) sigaction(sig, &saDefault, NULL)`
abbrev pub default_unless_ignored : Handler → ℕ → Process → Process
default_unless_ignored sig_ign sig p = p
default_unless_ignored sig_dfl sig p = sigaction sig sa_default p
default_unless_ignored (handler f) sig p = sigaction sig sa_default p

-- The child at its execl(), from the original process and its copy of the prepared one
unfoldable pub child : Process → Process → Process
child orig p = sig_setmask orig.blocked (
    default_unless_ignored (orig.action sigquit).sa_handler sigquit
      (default_unless_ignored (orig.action sigint).sa_handler sigint p))

-- What follows the switch
unfoldable pub restore : Process → Process → Process
restore orig p =
    sigaction sigquit (orig.action sigquit)
      (sigaction sigint (orig.action sigint) (sig_setmask orig.blocked p))

-- What waitpid() returns: the status of the child, or -1 with EINTR or with another error
pub data Wait : Type 0 where
  waited : ℕ → Wait
  wait_eintr wait_error : Wait

-- `status` after the loop, where -1 is `none`; the outer `none` is a wait for a result that is not given.
unfoldable pub wait_loop : List Wait → Option (Option ℕ)
wait_loop [] = none
wait_loop (waited status ∷ ws) = some (some status)
wait_loop (wait_eintr ∷ ws) = wait_loop ws
wait_loop (wait_error ∷ ws) = some none

-- A call that has returned, or waits; the child, if fork() gave one, as it stands at its execl()
pub data Called : Type 0 where
  returned : Option ℕ → Process → Option Process → Called
  waits : Process → Called

abbrev pub finish : Process → Process → Option (Option ℕ) → Called
finish orig p none = waits p
finish orig p (some status) = returned status (restore orig p) (some (child orig p))

-- `system` with a command, by whether fork() succeeds
unfoldable pub run_command : Bool → List Wait → Process → Called
unfolding prepare child restore wait_loop
run_command false ws orig = returned none (restore orig (prepare orig)) none
run_command true ws orig = finish orig (prepare orig) (wait_loop ws)

-- `status == 0`
abbrev pub is_zero : Option ℕ → Bool
is_zero none = false
is_zero (some status) = status == 0

abbrev pub compared : Called → Called
compared (waits p) = waits p
compared (returned status p c) = returned (some (if is_zero status then 1 else 0)) p c

-- `none` for `command` is a null pointer.
unfoldable pub system : Option (List ℕ) → Bool → List Wait → Process → Called
unfolding run_command
system none forks ws p = compared (run_command forks ws p)
system (some command) forks ws p = run_command forks ws p

-- The same signals are blocked, and each has the same action.
pub record Same (p q : Process) : Type 0 where
  pub same_mask : (n : ℕ) → p.blocked n ≡ q.blocked n
  pub same_action : (n : ℕ) → p.action n ≡ q.action n

-- execve(): a signal that was caught has its default action.
abbrev pub exec_handler : Handler → Handler
exec_handler sig_dfl = sig_dfl
exec_handler sig_ign = sig_ign
exec_handler (handler f) = sig_dfl

-- A program that `p` executes starts with the mask and the dispositions that it has if `q` executes it.
pub record SameStart (p q : Process) : Type 0 where
  pub start_mask : (n : ℕ) → p.blocked n ≡ q.blocked n
  pub start_handler :
      (n : ℕ) → exec_handler ((p.action n).sa_handler) ≡ exec_handler ((q.action n).sa_handler)

abbrev pub all_interrupted : List Wait → Bool
all_interrupted [] = true
all_interrupted (wait_eintr ∷ ws) = all_interrupted ws
all_interrupted (waited status ∷ ws) = false
all_interrupted (wait_error ∷ ws) = false

-- What `system` promises its caller and its child
abbrev pub Promises : Process → Bool → List Wait → Called → Type 0
Promises p forks ws (waits q) = (forks ≡ true) × (all_interrupted ws ≡ true)
Promises p forks ws (returned status q none) = Same q p × (forks ≡ false)
Promises p forks ws (returned status q (some c)) = Same q p × SameStart c p

restore-Same : (p : Process) → Same (restore p (prepare p)) p
unfolding restore prepare
restore-Same p = record { same_mask = λ n. refl; same_action = λ n. grind arith }

-- By the handlers of SIGINT and SIGQUIT
child_handler :
    (p : Process) (hi hq : Handler) (n : ℕ)
    → hi ≡ (p.action sigint).sa_handler
    → hq ≡ (p.action sigquit).sa_handler
    → exec_handler (
        ((default_unless_ignored hq sigquit (default_unless_ignored hi sigint (prepare p))).action
          n).sa_handler)
      ≡ exec_handler ((p.action n).sa_handler)
unfolding prepare
child_handler p sig_dfl sig_dfl n i q = grind (arith, ap exec_handler i, ap exec_handler q)
child_handler p sig_dfl sig_ign n i q = grind (arith, ap exec_handler i, ap exec_handler q)
child_handler p sig_dfl (handler g) n i q = grind (arith, ap exec_handler i, ap exec_handler q)
child_handler p sig_ign sig_dfl n i q = grind (arith, ap exec_handler i, ap exec_handler q)
child_handler p sig_ign sig_ign n i q = grind (arith, ap exec_handler i, ap exec_handler q)
child_handler p sig_ign (handler g) n i q = grind (arith, ap exec_handler i, ap exec_handler q)
child_handler p (handler f) sig_dfl n i q = grind (arith, ap exec_handler i, ap exec_handler q)
child_handler p (handler f) sig_ign n i q = grind (arith, ap exec_handler i, ap exec_handler q)
child_handler p (handler f) (handler g) n i q = grind (arith, ap exec_handler i, ap exec_handler q)

wait_loop-interrupted : (ws : List Wait) → wait_loop ws ≡ none → all_interrupted ws ≡ true
unfolding wait_loop
wait_loop-interrupted [] e = refl
wait_loop-interrupted (wait_eintr ∷ ws) e = wait_loop-interrupted ws e
wait_loop-interrupted (waited status ∷ ws) e = absurd (ground arith)
wait_loop-interrupted (wait_error ∷ ws) e = absurd (ground arith)

child-SameStart : (p : Process) → SameStart (child p (prepare p)) p
unfolding child
child-SameStart p = record {
  start_mask = λ n. refl;
  start_handler =
      λ n. child_handler p (p.action sigint).sa_handler (p.action sigquit).sa_handler n refl refl;
}

finish-Promises :
    (p : Process) (ws : List Wait) (o : Option (Option ℕ))
    → wait_loop ws ≡ o
    → Promises p true ws (finish p (prepare p) o)
finish-Promises p ws none e = (refl, wait_loop-interrupted ws e)
finish-Promises p ws (some status) e = (restore-Same p, child-SameStart p)

run_command-Promises :
    (forks : Bool) (ws : List Wait) (p : Process) → Promises p forks ws (run_command forks ws p)
unfolding run_command
run_command-Promises false ws p = (restore-Same p, refl)
run_command-Promises true ws p = finish-Promises p ws (wait_loop ws) refl

compared-Promises :
    (p : Process) (forks : Bool) (ws : List Wait) (c : Called)
    → Promises p forks ws c
    → Promises p forks ws (compared c)
compared-Promises p forks ws (waits q) h = h
compared-Promises p forks ws (returned status q none) h = h
compared-Promises p forks ws (returned status q (some c)) h = h

-- `system` waits only while every waitpid() is interrupted. When it returns, with an error or not, its
-- caller has the signal mask and the actions of before; and the shell of the child starts with the mask and
-- the dispositions that it would have if the caller had executed it.
pub system_lem :
    (command : Option (List ℕ)) (forks : Bool) (ws : List Wait) (p : Process)
    → Promises p forks ws (system command forks ws p)
unfolding system
system_lem (some command) forks ws p = run_command-Promises forks ws p
system_lem none forks ws p =
    compared-Promises p forks ws (run_command forks ws p) (run_command-Promises forks ws p)
