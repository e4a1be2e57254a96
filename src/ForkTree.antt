-- ===== src/ForkTree.antt =====
-- forktree_and_pthread.c: a tree of processes, `numforks` children to a process on `numlevels`
-- levels, whose leaves run threads.
pub mod Laws
mod Tests
use generic_tests.Common.{
  ℕ, zero, suc, ◌+◌, String, List, [], ◌∷◌, true, false, ltb, if◌then◌else◌, length,
}
use generic_tests.Common.Int.{ℤ, pos, negsuc, minus_one, eqb_ℤ, ltb_ℤ, pos_part}
use generic_tests.Sys.{
  nat, int, str, Call, Prog, ret, exit, spin, emit, ask, say, value_of, ◌>>=◌, ◌>>◌, print_flush,
  print, skip,
}
use generic_tests.Wait.{wait_loop, plain_formats}
use generic_tests.Fork.{identity, arg, fork_failed, fork_count}

-- What each thread runs; its value is what `pthread_join` hands over.
pub print_thread_id : ℕ → Prog ℤ
print_thread_id thread_id = do
  say (Call.sys "malloc" (nat 4 ∷ []))
  pid ← value_of Call.getpid
  tid ← value_of Call.gettid
  print_flush " Thread %d is running as pid, tid: %d,%d\n" (nat thread_id ∷ int pid ∷ int tid ∷ [])
  say (Call.sleep 2)
  pid' ← value_of Call.getpid
  tid' ← value_of Call.gettid
  print_flush " Thread %d is running as pid, tid: %d,%d ready to exit\n"
      (nat thread_id ∷ int pid' ∷ int tid' ∷ [])
  ret (pos thread_id)

-- The loop over `pthread_create`; the call's argument is the index in `threads`.
unfoldable pub create_threads : ℕ → ℕ → Prog (Unit {0})
create_threads zero i = skip
create_threads (suc left) i = ask (Call.pthread_create i) (λ a.
    if eqb_ℤ a.result (pos 0)
    then create_threads left (i + 1)
    else emit (Call.printf "Error: Unable to create thread %d\n" (nat (i + 1) ∷ []))
        (exit minus_one))

-- The loop over `pthread_join`; the answer is `*threadstatus`. A thread is named by its index.
unfoldable pub join_threads : ℕ → ℕ → Prog (Unit {0})
join_threads zero i = skip
join_threads (suc left) i = ask (Call.pthread_join i) (λ a.
    emit (Call.printf "Joined with thread %ld which exited 0x%x\n" (nat i ∷ int a.result ∷ []))
      (emit Call.fflush (emit (Call.sys "free" []) (join_threads left (i + 1)))))

abbrev pub max_threads : ℕ
max_threads = 20

-- `if (num_threads > MAXTHREADS) num_threads = MAXTHREADS;`, and the rounds of the loops over it.
abbrev pub thread_count : ℤ → ℕ
thread_count num_threads =
    if ltb_ℤ (pos max_threads) num_threads then max_threads else pos_part num_threads

unfoldable pub spawnthreads : ℤ → Prog (Unit {0})
spawnthreads num_threads =
    create_threads (thread_count num_threads) 0 >> join_threads (thread_count num_threads) 0

-- `waitchildren`: a wait for any child of the process group, which a failed wait leaves.
unfoldable pub waitchildren : ℕ → ℤ → Prog (Unit {0})
waitchildren waits levno =
    wait_loop skip plain_formats (pos 0) waits
    >> print_flush "parent %d after all children exitted\n" (int levno ∷ [])

-- The loop over `fork` in `spawnforks`; `below` is the child's call of `spawnforks`.
unfoldable pub fork_children : Prog (Unit {0}) → ℤ → ℕ → ℕ → Prog (Unit {0})
fork_children below numlevels zero forkno = skip
fork_children below numlevels (suc left) forkno = ask Call.fork (λ a.
    if eqb_ℤ a.result minus_one
    then fork_failed forkno
    else if eqb_ℤ a.result (pos 0)
    then (do
      me ← identity
      print_flush "Level %d, Child %d: PID %d, parent PID %d, uid %d, euid %d, gid %d, egid %d\n"
          (int numlevels ∷ nat forkno ∷ me)
      say (Call.sleep 2)
      below
      exit (pos forkno))
    else fork_children below numlevels left (forkno + 1))

-- numlevels - 1
abbrev pub pred_ℤ : ℤ → ℤ
pred_ℤ (pos zero) = negsuc 0
pred_ℤ (pos (suc n)) = pos n
pred_ℤ (negsuc n) = negsuc (suc n)

-- `spawnforks`, on fuel for its recursion and for the waits. `numlevels` is taken not to overflow.
unfoldable pub spawnforks : ℕ → ℕ → ℤ → ℤ → Prog (Unit {0})
spawnforks zero waits numforks numlevels = spin
spawnforks (suc fuel) waits numforks numlevels = elim (eqb_ℤ numlevels (pos 0)) [
  | true ↦ spawnthreads numforks
  | false ↦
      fork_children (spawnforks fuel waits numforks (pred_ℤ numlevels)) numlevels
        (pos_part numforks) 0
      >> waitchildren waits numlevels
]

-- The number of levels: the second argument, or 1.
abbrev pub level_count : (String → ℤ) → List String → ℤ
level_count atoi argv = if ltb 2 (length argv) then atoi (arg argv 2) else pos 1

abbrev pub tree_end : (String → ℤ) → List String → Prog ℤ
tree_end atoi argv = do
  print_flush "%s  forked %d times on %d levels\n"
      (str (arg argv 0) ∷ int (fork_count atoi argv) ∷ int (level_count atoi argv) ∷ [])
  ret (pos 0)

-- `main`, which returns 0 by running off its end.
unfoldable pub tree_main : (String → ℤ) → ℕ → ℕ → List String → Prog ℤ
tree_main atoi fuel waits argv = do
  print_flush "%s will fork %d times on %d levels\n"
      (str (arg argv 0) ∷ int (fork_count atoi argv) ∷ int (level_count atoi argv) ∷ [])
  spawnforks fuel waits (fork_count atoi argv) (level_count atoi argv)
  tree_end atoi argv
