-- ===== src/Clone.antt =====
-- clone.c: children that fault, are killed, stop or return, and the lines that say whether each did
-- as expected.
pub mod Laws
mod Tests
use generic_tests.Common.{
  ℕ, zero, suc, ◌+◌, String, Option, none, some, List, [], ◌∷◌, ◌==◌, if◌then◌else◌,
}
use generic_tests.Common.Int.{ℤ, pos, is_neg, eqb_ℤ}
use generic_tests.Sys.{
  nat, int, str, Arg, Call, Prog, ret, exit, killed, emit, ask, say, skip, ◌>>=◌, ◌>>◌, print,
  print_flush, printf, fflush, sys, sleep, waitpid,
}
use generic_tests.Wait.{term_sig, if_exited, exit_status, if_signaled, if_stopped, stop_sig}

-- `fn`, which the child runs with a pointer to a number, or NULL. Its `file` is the global one,
-- which is NULL, so that it flushes every stream. What the machine does on a read through NULL and on
-- a division by 0, whose result is not used, are parameters; `divided` goes on with the rest.
unfoldable pub fn : Prog ℤ → (Prog ℤ → Prog ℤ) → Option ℤ → Prog ℤ
fn null_read divided none =
    emit
      (printf "\nINFO: This code is running under child process with arg at %p.\n"
        (str "NULL" ∷ []))
      (emit fflush null_read)
fn null_read divided (some n) =
    emit
      (printf "\nINFO: This code is running under child process with arg at %p.\n"
        (str "&intarg" ∷ []))
      (emit fflush (
        emit (printf "INFO: arg is %d.\n" (int n ∷ [])) (
          emit fflush (
            let rest =
              if eqb_ℤ n (pos 1)
              then emit (printf "Sleep for a while so can have signal applied\n" [])
                  (emit fflush (emit (sleep 2) (ret n)))
              else emit (printf "Working with %d\n" (int n ∷ [])) (emit fflush (ret n)) in
            if eqb_ℤ n (pos 0) then divided rest else rest))))

-- The lines on a child that is to be killed by a fault.
unfoldable pub fault_verdict : ℕ → String → String → String → String → ℕ → Call
fault_verdict sig expected killed_by exited odd s =
    if if_signaled s
    then (if term_sig s == sig
        then printf expected []
        else printf killed_by (nat (term_sig s) ∷ []))
    else if if_exited s
    then printf exited (nat (exit_status s) ∷ [])
    else printf odd []

-- By SIGSEGV, and by SIGFPE.
abbrev pub segv_verdict : ℕ → Call
segv_verdict =
    fault_verdict 11 "killed by segfault as expected\n"
      "Expect segfault but killed unexpectedly by signal %d\n"
      "Expect segfault but unexpectedly exited normally, status=%d\n"
      "Expect segfault but unexpectedly continued or stopped\n"

abbrev pub fpe_verdict : ℕ → Call
fpe_verdict =
    fault_verdict 8 "killed by floating point error as expected\n"
      "Expect fpe but killed unexpectedly by signal %d\n"
      "Expect fpe but unexpectedly exited normally, status=%d\n"
      "Expect fpe but unexpectedly continued or stopped\n"

-- On a child that is sent SIGTERM.
unfoldable pub term_verdict : ℕ → Call
term_verdict s =
    if if_signaled s
    then (if term_sig s == 15
        then printf "killed by sigterm as expected\n" []
        else printf "Expect sigterm but killed unexpectedly by signal %d\n" (nat (term_sig s) ∷ []))
    else if if_exited s
    then printf "Exited normally but expected sigterm , status=%d\n" (nat (exit_status s) ∷ [])
    else if if_stopped s
    then printf "stopped by signal %d\n" (nat (stop_sig s) ∷ [])
    else printf "Unexpectedly continued or stopped\n" []

-- On a child that is sent SIGSTOP.
unfoldable pub stop_verdict : ℕ → Call
stop_verdict s =
    if if_signaled s
    then printf "Unexpectedly killed  by signal %d\n" (nat (term_sig s) ∷ [])
    else if if_exited s
    then printf "Exited normally as expected, status=%d\n" (nat (exit_status s) ∷ [])
    else if if_stopped s
    then (if stop_sig s == 19
        then printf "stopped by sig stop as expected\n" []
        else printf "stopped by signal %d not %d\n" (nat (stop_sig s) ∷ nat 19 ∷ []))
    else printf "Unexpectedly continued or stopped\n" []

-- On a child that is to return.
unfoldable pub exit_verdict : ℕ → Call
exit_verdict s =
    if if_signaled s
    then printf "Unexpectdely killed  by signal %d\n" (nat (term_sig s) ∷ [])
    else if if_exited s
    then printf "Exited normally as expected, status=%d\n" (nat (exit_status s) ∷ [])
    else printf "Unexpectedly continued or stopped\n" []

-- `clone(fn, …, SIGCHLD, arg)`, with its check; `next` follows in the parent.
abbrev pub cloned : List Arg → (ℤ → Prog (Unit {0})) → Prog (Unit {0})
cloned arg next = ask (sys "clone" arg) (λ a.
    if is_neg a.result
    then emit (printf "ERROR: Unable to create the child process.\n" []) (exit (pos 1))
    else next a.result)

-- The wait, which is for any child, and the lines on it.
abbrev pub judged : (ℕ → Call) → Prog (Unit {0}) → Prog (Unit {0})
judged verdict next = ask (waitpid (pos 0)) (λ a. emit (verdict a.status) (emit fflush next))

-- `&intarg` and the number there.
abbrev pub intarg : ℕ → List Arg
intarg n = str "&intarg" ∷ nat n ∷ []

-- `sleep(1); kill(pid, sig);`
abbrev pub signalled : ℕ → ℤ → Prog (Unit {0}) → Prog (Unit {0})
signalled sig pid next = emit (sleep 1) (emit (sys "kill" (int pid ∷ nat sig ∷ [])) next)

unfoldable pub print_args : ℕ → List String → Prog (Unit {0})
print_args i [] = skip
print_args i (a ∷ rest) = emit (printf "Arg %d: %s" (nat i ∷ str a ∷ [])) (print_args (i + 1) rest)

-- The five children of `main`.
unfoldable pub trials : Prog (Unit {0})
trials = cloned (nat 0 ∷ []) (λ _. judged segv_verdict (
    cloned (intarg 0) (λ _. judged fpe_verdict (
      cloned (intarg 1) (λ pid. signalled 15 pid (
        judged term_verdict (
          cloned (intarg 1) (λ pid'. signalled 19 pid' (
            judged stop_verdict (
              cloned (intarg 3) (λ _.
                judged exit_verdict
                  (emit (sys "free" []) (print "INFO: Child process terminated.\n" [])))))))))))))

-- `main`, with the arguments behind argv[0]; a `malloc` that gives 0 has failed.
unfoldable pub clone_main : List String → Prog (Unit {0})
clone_main args = emit (printf "Hello, World!\n" []) (
    print_args 1 args
    >> emit fflush (
        ask (sys "malloc" (nat 1048576 ∷ [])) (λ a.
          if eqb_ℤ a.result (pos 0)
          then emit (printf "ERROR: Unable to allocate memory.\n" []) (exit (pos 1))
          else trials)))
