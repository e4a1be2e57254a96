-- ===== src/Threads/ForkMulti.antt =====
-- forkmulti.c: a child that turns into another program, beside five threads.
use generic_tests.Common.{ℕ, String, List, [], ◌∷◌, ltb, if◌then◌else◌, length}
use generic_tests.Common.Int.{ℤ, pos, minus_one, eqb_ℤ}
use generic_tests.Sys.{
  int, nat, text, Call, Prog, ret, exit, replaced, emit, ask, say, value_of, ◌>>=◌, ◌>>◌,
  print_flush, sys, perror, execve,
}
use generic_tests.Wait.{Formats, report}
use generic_tests.Fork.{arg}
use generic_tests.Threads.{text_of, spaces, cut, create_loop, join_loop}

-- `callsys`, which does not use its argument. A child whose `execve` fails runs off the end of the
-- function: `garbage` is the value that the caller then sees.
unfoldable pub callsys : ℤ → String → Prog ℤ
callsys garbage name = ask Call.fork (λ a.
    if eqb_ℤ a.result minus_one
    then emit (perror "fork failed") (exit minus_one)
    else if eqb_ℤ a.result (pos 0)
    then (do
      print_flush "Bed time for forked child\n" []
      say (Call.sleep 4)
      print_flush "Forked child awoke\n" []
      ask (execve "./hello-stat") (λ b.
          if eqb_ℤ b.result minus_one
          then emit (Call.printf "Failed to start ./hello-stat\n" [])
              (emit (perror "Could not execve") (ret garbage))
          else replaced))
    else ret a.result)

-- What each thread runs.
pub brief_thread : ℕ → Prog ℤ
brief_thread thread_id = do
  say (sys "malloc" (nat 4 ∷ []))
  pid ← value_of Call.getpid
  tid ← value_of Call.gettid
  print_flush "Our thread %d is running as pid, tid: %d,%d %s\n"
      (nat thread_id ∷ int pid ∷ int tid ∷ text (text_of (cut spaces thread_id)) ∷ [])
  ret (pos thread_id)

abbrev pub childpid_formats : Formats
childpid_formats = record {
  exited = "childpid exited, status=%d\n";
  signaled = "childpid killed by signal %d\n";
  stopped = "childpid stopped by signal %d\n";
  continued = "childpid continued\n";
  args = [];
}

-- The wait at the end of `main`, which is made once.
abbrev pub wait_once : Formats → String → ℤ → Prog ℤ
wait_once f last childpid = ask (Call.waitpid childpid) (λ a.
    if eqb_ℤ a.result minus_one
    then emit (perror "Waitpid failed") (exit minus_one)
    else (report f a.status >> (print_flush last [] >> ret (pos 0))))

-- After `callsys`.
unfoldable pub after_callsys : ℤ → Prog ℤ
after_callsys childpid =
    create_loop 1 5 0
    >> (join_loop (sys "free" [] ∷ []) 5 0 spaces
        >> wait_once childpid_formats "Childpid fork done\n" childpid)

unfoldable pub forkmulti_main : ℤ → List String → Prog ℤ
forkmulti_main garbage argv =
    callsys garbage (if ltb 1 (length argv) then arg argv 1 else "./test.sh") >>= after_callsys
