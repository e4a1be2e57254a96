-- ===== src/Threads/Combined.antt =====
-- The programs that fork or call a shell beside five threads: fork_and_pthread.c,
-- forkexec_and_pthread.c, forkexecwait_and_pthread.c, forkexecwait_and_pthreadchild.c and
-- system_and_pthread.c. Their `print_thread_id` is that of forkmulti.c, `brief_thread`.
use generic_tests.Common.{String, List, [], ◌∷◌, ltb, if◌then◌else◌, length}
use generic_tests.Common.Int.{ℤ, pos, minus_one, eqb_ℤ}
use generic_tests.Sys.{
  str, Call, Prog, ret, exit, replaced, emit, ask, ◌>>=◌, ◌>>◌, printf, fflush, sys, perror, sleep,
  fork, execve,
}
use generic_tests.Fork.{arg}
use generic_tests.Shell.{callsys}
use generic_tests.Threads.{spaces, create_loop, join_loop}
use generic_tests.Threads.ForkMulti.{after_callsys, childpid_formats, wait_once}

-- The command: the argument, or ./test.sh.
abbrev pub command : List String → String
command argv = if ltb 1 (length argv) then arg argv 1 else "./test.sh"

-- The two loops over the threads.
unfoldable pub five_threads : Prog (Unit {0})
five_threads = create_loop 1 5 0 >> join_loop (sys "free" [] ∷ []) 5 0 spaces

-- `fork` with its check: what the child does, and what the parent does with the process id.
abbrev pub forked : Prog ℤ → (ℤ → Prog ℤ) → Prog ℤ
forked child parent = ask fork (λ a.
    if eqb_ℤ a.result minus_one
    then emit (perror "fork failed") (exit minus_one)
    else if eqb_ℤ a.result (pos 0)
    then child
    else parent a.result)

-- "Bed time", and awake again after four seconds.
abbrev pub bed_time : Prog ℤ → Prog ℤ
bed_time next =
    emit (printf "Bed time for forked child\n" [])
      (emit fflush (emit (sleep 4) (emit (printf "Forked child awoke\n" []) (emit fflush next))))

-- `if (execve(name, …) == -1) { printf(…); perror(…); }`; where it fails, the end of the function is
-- reached with the value `garbage`.
abbrev pub exec_or : String → Call → ℤ → Prog ℤ
exec_or name complaint garbage = ask (execve name) (λ b.
    if eqb_ℤ b.result minus_one
    then emit complaint (emit (perror "Could not execve") (ret garbage))
    else replaced)

abbrev pub not_started : Call
not_started = printf "Failed to start ./hello-stat\n" []

-- `callsys` of fork_and_pthread.c, of forkexec_and_pthread.c and of forkexecwait_and_pthread.c.
unfoldable pub callsys_exit : Prog ℤ
callsys_exit = forked (bed_time (exit (pos 17))) (λ cpid. ret cpid)

unfoldable pub callsys_exec : ℤ → String → Prog ℤ
callsys_exec garbage name =
    forked (exec_or name (printf "Failed to start %s\n" (str name ∷ [])) garbage) (λ cpid. ret cpid)

-- The parent waits once, and gives the process id back.
abbrev pub wait_for : ℤ → Prog ℤ
wait_for childpid = wait_once childpid_formats "Childpid fork done\n" childpid >> ret childpid

unfoldable pub callsys_wait : ℤ → Prog ℤ
callsys_wait garbage = forked (bed_time (exec_or "./hello-stat" not_started garbage)) wait_for

-- `main` of fork_and_pthread.c, of forkexec_and_pthread.c and of forkexecwait_and_pthread.c. The
-- first two wait once for the child behind the threads, as forkmulti.c does.
unfoldable pub fork_and_pthread_main : Prog ℤ
fork_and_pthread_main = callsys_exit >>= after_callsys

unfoldable pub forkexec_and_pthread_main : ℤ → List String → Prog ℤ
forkexec_and_pthread_main garbage argv = callsys_exec garbage (command argv) >>= after_callsys

unfoldable pub forkexecwait_and_pthread_main : ℤ → Prog ℤ
forkexecwait_and_pthread_main garbage = callsys_wait garbage >>= λ _. (five_threads >> ret (pos 0))

-- `execorproceed` and `main` of forkexecwait_and_pthreadchild.c: the child runs the threads.
unfoldable pub execorproceed : ℤ → Prog ℤ
execorproceed garbage =
    forked (five_threads >> ret garbage)
      (λ _. bed_time (exec_or "./hello-stat" not_started garbage))

unfoldable pub pthreadchild_main : ℤ → Prog ℤ
pthreadchild_main garbage = execorproceed garbage >>= λ _. ret (pos 0)

-- `main` of system_and_pthread.c
unfoldable pub system_and_pthread_main : List String → Prog ℤ
system_and_pthread_main argv = callsys (command argv) >> (five_threads >> ret (pos 0))
