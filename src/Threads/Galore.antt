-- ===== src/Threads/Galore.antt =====
-- processesgalore.c: threads that each fork children.
use generic_tests.Common.{ℕ, zero, suc, ◌+◌, ◌*◌, String, List, [], ◌∷◌, if◌then◌else◌}
use generic_tests.Common.Int.{ℤ, pos, minus_one, eqb_ℤ, pos_part}
use generic_tests.Sys.{
  int, nat, Call, Prog, ret, exit, emit, ask, say, skip, value_of, ◌>>=◌, ◌>>◌, print, print_flush,
  fflush, sys, perror, waitpid, printf,
}
use generic_tests.Wait.{Formats, report, goes_on}
use generic_tests.Fork.{fork_count}
use generic_tests.Threads.{spaces, create_loop, join_loop}

-- The branch of the child in `do_thread`.
abbrev pub galore_child : ℕ → ℕ → Prog ℤ
galore_child thread_id forkno = do
  pid ← value_of Call.getpid
  tid ← value_of Call.gettid
  ppid ← value_of Call.getppid
  uid ← value_of Call.getuid
  euid ← value_of Call.geteuid
  gid ← value_of Call.getgid
  egid ← value_of Call.getegid
  print_flush
      "Child  %d of thread %d: PID %d, tid %d, parent PID %d, uid %d, euid %d, gid %d, egid %d\n"
      (nat forkno
        ∷ nat thread_id
        ∷ int pid
        ∷ int tid
        ∷ int ppid
        ∷ int uid
        ∷ int euid
        ∷ int gid
        ∷ int egid
        ∷ [])
  say (Call.sleep (5 * (forkno + 1)))
  print "Child  %d of thread %d done\n" (nat forkno ∷ nat thread_id ∷ [])
  exit (pos forkno)

-- The loop over `fork`, which leaves the last process id.
unfoldable pub galore_loop : ℕ → ℕ → ℕ → ℤ → Prog ℤ
galore_loop thread_id zero forkno cpid = ret cpid
galore_loop thread_id (suc left) forkno cpid = ask Call.fork (λ a.
    if eqb_ℤ a.result minus_one
    then emit (printf "Fork %d failed\n" (nat forkno ∷ []))
        (emit (perror "fork failed") (emit fflush (exit minus_one)))
    else if eqb_ℤ a.result (pos 0)
    then galore_child thread_id forkno
    else galore_loop thread_id left (forkno + 1) a.result)

abbrev pub galore_formats : ℕ → ℤ → Formats
galore_formats thread_id w = record {
  exited = "Parent of thread %d: saw child %d exited, status=%d\n";
  signaled = "Parent of thread %d: saw child %d killed by signal %d\n";
  stopped = "Parent of thread %d: saw child %d stopped by signal %d\n";
  continued = "Parent of thread %d: saw child %d continued\n";
  args = nat thread_id ∷ int w ∷ [];
}

-- The loop over the wait, on fuel. It flushes after each line.
unfoldable pub galore_wait : ℕ → ℤ → ℕ → Prog (Unit {0})
galore_wait thread_id cpid zero = Prog.spin
galore_wait thread_id cpid (suc fuel) =
    let rest = galore_wait thread_id cpid fuel in
    ask (waitpid cpid) (λ a.
      if eqb_ℤ a.result minus_one
      then say (perror "Waitpid failed")
      else (report (galore_formats thread_id a.result) a.status
          >> (say fflush >> (if goes_on a.status then rest else skip))))

-- After the loop over `fork`, with the last process id.
unfoldable pub after_forks : ℕ → ℕ → ℤ → Prog ℤ
after_forks fuel thread_id last = do
  pid ← value_of Call.getpid
  tid ← value_of Call.gettid
  print_flush "Parent of thread %d: PID %d, tid %d made all children\n"
      (nat thread_id ∷ int pid ∷ int tid ∷ [])
  galore_wait thread_id last fuel
  ret (pos thread_id)

-- `do_thread`; `cpid` is what the variable holds before the first `fork`.
unfoldable pub do_thread : ℤ → ℕ → ℕ → Prog ℤ
do_thread cpid fuel thread_id = do
  say (sys "malloc" (nat 4 ∷ []))
  say fflush
  pid ← value_of Call.getpid
  tid ← value_of Call.gettid
  print_flush "In thread %d create %d forked children PID %d, tid %d\n"
      (nat thread_id ∷ nat (thread_id + 2) ∷ int pid ∷ int tid ∷ [])
  galore_loop thread_id (thread_id + 2) 0 cpid >>= after_forks fuel thread_id

-- `main`; the arrays hold five entries, and a larger argument writes behind them.
unfoldable pub galore_main : (String → ℤ) → List String → Prog ℤ
galore_main atoi argv = do
  let num_threads = fork_count atoi argv
  print_flush "Creating %d threads\n" (int num_threads ∷ [])
  create_loop 0 (pos_part num_threads) 0
  print_flush "%d threads made, sleep a bit\n" (int num_threads ∷ [])
  say (Call.sleep 5)
  join_loop [] (pos_part num_threads) 0 spaces
  ret (pos 0)
