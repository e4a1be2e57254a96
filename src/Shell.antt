-- ===== src/Shell.antt =====
-- system.c and simplesystem.c: commands that a shell runs, and the line on the status word that
-- `system` gives. system_and_pthread.c has the same `callsys`.
pub mod Laws
mod Tests
use generic_tests.Common.{ℕ, ◌%◌, ◌^◌, ◌-◌, String, List, [], ◌∷◌, ◌==◌, if◌then◌else◌}
use generic_tests.Common.Int.{ℤ, pos, negsuc, minus_one, eqb_ℤ}
use generic_tests.Sys.{
  nat, str, Call, Answer, Prog, ret, emit, ask, skip, ◌>>◌, print, printf, perror, sys,
}
use generic_tests.Wait.{
  if_exited, exit_status, if_signaled, term_sig, if_stopped, stop_sig, if_continued,
}

-- The bits of an `int`, on which the macros of <sys/wait.h> work.
abbrev pub bits_of : ℤ → ℕ
bits_of (pos n) = n
bits_of (negsuc n) = 2 ^ 32 - n - 1

-- The ladder on what `system` gives.
unfoldable pub system_report : String → ℕ → Prog (Unit {0})
system_report name s =
    if if_exited s
    then (if exit_status s == 127
        then print "Call to system(%s) could not be executed\n" (str name ∷ [])
        else print "Call to system(%s) returned %d\n" (str name ∷ nat (exit_status s) ∷ []))
    else if if_signaled s
    then print "Call to system(%s) killed by signal %d\n" (str name ∷ nat (term_sig s) ∷ [])
    else if if_stopped s
    then print "Call to system(%s) stopped by signal %d\n" (str name ∷ nat (stop_sig s) ∷ [])
    else if if_continued s
    then print "Call to system(%s) continued\n" (str name ∷ [])
    else skip

-- `callsys`, which goes on to the ladder after a failure too.
unfoldable pub callsys : String → Prog (Unit {0})
callsys name = ask (sys "system" (str name ∷ [])) (λ a.
    (if eqb_ℤ a.result minus_one then emit (perror "Call to system failed") skip else skip)
    >> system_report name (bits_of a.result))

unfoldable pub system_main : Prog ℤ
system_main = callsys "notfound.sh" >> (callsys "./test.sh" >> ret (pos 0))

unfoldable pub simplesystem_main : Prog ℤ
simplesystem_main = callsys "./test.sh" >> ret (pos 0)
