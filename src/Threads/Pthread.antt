-- ===== src/Threads/Pthread.antt =====
-- pthread.c: threads that print their number, created and joined.
use generic_tests.Common.{ℕ, String, List, [], ◌∷◌, ltb, if◌then◌else◌, length}
use generic_tests.Common.Int.{ℤ, pos, ltb_ℤ, pos_part}
use generic_tests.Sys.{
  int, nat, str, text, Call, Prog, ret, say, value_of, ◌>>=◌, ◌>>◌, print_flush, fflush, sys,
}
use generic_tests.Fork.{arg}
use generic_tests.Threads.{text_of, spaces, cut, create_loop, join_loop}

-- `print_thread_id`, with its line indented by the number of the thread.
pub padded_thread : ℕ → Prog ℤ
padded_thread thread_id = do
  say (sys "malloc" (nat 4 ∷ []))
  pid ← value_of Call.getpid
  tid ← value_of Call.gettid
  print_flush "Our thread %d is running as pid, tid: %d,%d %s\n"
      (nat thread_id ∷ int pid ∷ int tid ∷ text (text_of (cut spaces thread_id)) ∷ [])
  say (Call.sleep 10)
  pid' ← value_of Call.getpid
  tid' ← value_of Call.gettid
  print_flush "Our thread %d is running as pid, tid: %d,%d ready to exit\n"
      (nat thread_id ∷ int pid' ∷ int tid' ∷ [])
  ret (pos thread_id)

-- The number of threads: the argument, but MAXTHREADS at most, or 5.
abbrev pub capped_count : (String → ℤ) → List String → ℤ
capped_count atoi argv =
    if ltb 1 (length argv)
    then (if ltb_ℤ (pos 20) (atoi (arg argv 1)) then pos 20 else atoi (arg argv 1))
    else pos 5

unfoldable pub pthread_main : (String → ℤ) → List String → Prog ℤ
pthread_main atoi argv = do
  let num_threads = capped_count atoi argv
  print_flush "%s will create %d threads\n" (str (arg argv 0) ∷ int num_threads ∷ [])
  create_loop 1 (pos_part num_threads) 0
  join_loop (fflush ∷ sys "free" [] ∷ []) (pos_part num_threads) 0 spaces
  ret (pos 0)
