-- ===== src/Wait.antt =====
-- The status word of `waitpid` and the code that reads it: the macros of <sys/wait.h>, the ladder of
-- tests that prints what became of a child, and the loop around both. The ladder and the loop stand
-- in fork.c, serialfork.c, parallelfork.c, multiforkexec.c, forktree_and_pthread.c,
-- processesgalore.c, forkmulti.c, socketforkserver.c and controlthreads.c.
pub mod Laws
pub mod Order
mod Tests
use generic_tests.Common.{
  ℕ, zero, suc, ◌+◌, ◌/◌, ◌%◌, String, Bool, true, false, not, ◌&&◌, ◌||◌, List, [], ◌∷◌, ◌++◌, ltb,
  ◌==◌, if◌then◌else◌,
}
use generic_tests.Common.Int.{ℤ, negsuc, minus_one, eqb_ℤ}
use generic_tests.Sys.{Arg, nat, Call, Answer, Prog, ret, exit, spin, emit, ask, ◌>>◌, print, skip}

-- WTERMSIG, WIFEXITED, WEXITSTATUS
abbrev pub term_sig : ℕ → ℕ
term_sig s = s % 128

abbrev pub if_exited : ℕ → Bool
if_exited s = term_sig s == 0

abbrev pub exit_status : ℕ → ℕ
exit_status s = s / 256 % 256

-- WIFSIGNALED: `((signed char)((s & 0x7f) + 1) >> 1) > 0`. At 0x7f the cast gives -128.
abbrev pub if_signaled : ℕ → Bool
if_signaled s = ltb (term_sig s + 1) 128 && ltb 0 ((term_sig s + 1) / 2)

-- WIFSTOPPED, WSTOPSIG, WIFCONTINUED
abbrev pub if_stopped : ℕ → Bool
if_stopped s = s % 256 == 0x7f

abbrev pub stop_sig : ℕ → ℕ
stop_sig = exit_status

abbrev pub if_continued : ℕ → Bool
if_continued s = s == 0xffff

-- The formats of the four lines, and the arguments that stand before the code or the signal.
pub record Formats : Type 0 where
  pub exited : String
  pub signaled : String
  pub stopped : String
  pub continued : String
  pub args : List Arg

-- The ladder of `if (WIFEXITED(status)) … else if (WIFCONTINUED(status)) …`
unfoldable pub report : Formats → ℕ → Prog (Unit {0})
report f s =
    if if_exited s
    then print f.exited (f.args ++ nat (exit_status s) ∷ [])
    else if if_signaled s
    then print f.signaled (f.args ++ nat (term_sig s) ∷ [])
    else if if_stopped s
    then print f.stopped (f.args ++ nat (stop_sig s) ∷ [])
    else if if_continued s
    then print f.continued f.args
    else skip

-- `while (!WIFEXITED(status) && !WIFSIGNALED(status))`
abbrev pub goes_on : ℕ → Bool
goes_on s = not (if_exited s) && not (if_signaled s)

abbrev pub plain_formats : Formats
plain_formats = record {
  exited = "exited, status=%d\n";
  signaled = "killed by signal %d\n";
  stopped = "stopped by signal %d\n";
  continued = "continued\n";
  args = [];
}

-- `do { w = waitpid(pid, …); if (w == -1) failed; …report… } while (…)`, for any way to go on after
-- a failed wait, on fuel.
unfoldable pub wait_loop : Prog (Unit {0}) → Formats → ℤ → ℕ → Prog (Unit {0})
wait_loop failed f pid zero = spin
wait_loop failed f pid (suc fuel) =
    let rest = wait_loop failed f pid fuel in
    ask (Call.waitpid pid) (λ a.
      if eqb_ℤ a.result minus_one
      then failed
      else (report f a.status >> (if goes_on a.status then rest else skip)))

-- `perror("Waitpid failed"); exit(-1);`
abbrev pub wait_failed : Prog (Unit {0})
wait_failed = emit (Call.perror "Waitpid failed") (exit minus_one)
