-- ===== src/Threads/Tests.antt =====
-- Runs of the joining loop, of forkmulti.c and of processesgalore.c.
use generic_tests.Common.{refl, ◌≡◌, [], ◌∷◌, if◌then◌else◌}
use generic_tests.Common.Int.{pos, minus_one, eqb_ℤ}
use generic_tests.Sys.{Call, fflush, execve}
use generic_tests.Sys.Run.{done, run}
use generic_tests.Threads.{spaces, join_loop}
use generic_tests.Sys.Tree.{Env, threads}
use generic_tests.Threads.ForkMulti.{forkmulti_main}
use generic_tests.Threads.Processes.{forkmulti_threads}
use generic_tests.Threads.Combined.{
  command, fork_and_pthread_main, forkexec_and_pthread_main, forkexecwait_and_pthread_main,
  pthreadchild_main,
}
use generic_tests.Threads.Fallen.{combined_threads}
use generic_tests.Threads.Laws.{joins, join_events, join_never_indents}

join_never_indents_example :
    run (join_loop (fflush ∷ []) 2 0 spaces) (joins (pos 1 ∷ pos 2 ∷ []) [])
    ≡ record { events = join_events (fflush ∷ []) 0 (pos 1 ∷ pos 2 ∷ []); outcome = done tt [] }
join_never_indents_example = join_never_indents (fflush ∷ []) (pos 1 ∷ pos 2 ∷ []) []

-- Every `fork` gives 7, and every other call 0; or no program can be started.
abbrev friendly : Env
friendly Call.fork = record { result = pos 7; status = 0; bytes = [] }
friendly c = record { result = pos 0; status = 0; bytes = [] }

abbrev nothing_starts : Env
nothing_starts (Call.execve path) = record { result = minus_one; status = 0; bytes = [] }
nothing_starts c = friendly c

forkmulti_threads_example : threads nothing_starts (forkmulti_main (pos 0) []) ≡ 10
forkmulti_threads_example =
    forkmulti_threads nothing_starts 6 (record { forks = refl; creates = λ i. refl }) (pos 0) []

combined_threads_example :
    (threads nothing_starts fork_and_pthread_main ≡ 5)
    × (threads nothing_starts (forkexec_and_pthread_main (pos 0) [])
        ≡ (if eqb_ℤ (nothing_starts (execve (command []))).result minus_one then 10 else 5))
    × (threads nothing_starts (forkexecwait_and_pthread_main (pos 0))
        ≡ (if eqb_ℤ (nothing_starts (execve "./hello-stat")).result minus_one then 10 else 5))
    × (threads nothing_starts (pthreadchild_main (pos 0)) ≡ 5)
combined_threads_example =
    combined_threads nothing_starts 6 (record { forks = refl; creates = λ i. refl }) (pos 0) [] refl
