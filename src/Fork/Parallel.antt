-- ===== src/Fork/Parallel.antt =====
-- parallelfork.c: fork all the children, then wait.
pub mod Laws
use generic_tests.Common.{ℕ, zero, suc, ◌+◌, String, List, [], ◌∷◌, if◌then◌else◌}
use generic_tests.Common.Int.{ℤ, pos, minus_one, eqb_ℤ, pos_part}
use generic_tests.Sys.{
  nat, int, str, Call, Answer, Prog, ret, exit, ask, say, ◌>>=◌, ◌>>◌, print, print_flush, skip,
}
use generic_tests.Wait.{wait_loop, plain_formats}
use generic_tests.Fork.{Vars, vars, show, identity, arg, fork_failed, fork_count}

-- The branch of the child.
abbrev pub sleeping_child : ℕ → Vars → Prog ℤ
sleeping_child forkno v = do
  me ← identity
  print "Child %d: PID %d, parent PID %d, uid %d, euid %d, gid %d, egid %d\n" (nat forkno ∷ me)
  print_flush " child local, static, global = %02x %02x %02x %02x\n" (show v)
  print_flush " child changed local, static, global = %02x %02x %02x %02x\n" (show (vars 2))
  say (Call.sleep 10)
  exit (pos forkno)

-- The loop over the forks. It leaves the last process id in `cpid`.
unfoldable pub parallel_loop : ℕ → ℕ → ℤ → Prog ℤ
parallel_loop zero forkno cpid = ret cpid
parallel_loop (suc left) forkno cpid = ask Call.fork (λ a.
    if eqb_ℤ a.result minus_one
    then fork_failed forkno
    else if eqb_ℤ a.result (pos 0)
    then sleeping_child forkno (vars 1)
    else parallel_loop left (forkno + 1) a.result)

-- After the wait.
abbrev pub parallel_report : Prog ℤ
parallel_report = do
  print "parent after all children exitted local, static, global = %02x %02x %02x %02x\n"
      (show (vars 1))
  print_flush "parent changed local, static, global = %02x %02x %02x %02x\n" (show (vars 3))
  ret (pos 0)

-- From the wait on; a wait that fails leaves the loop.
abbrev pub parallel_end : ℕ → ℤ → Prog ℤ
parallel_end fuel cpid = wait_loop skip plain_formats cpid fuel >> parallel_report

-- `cpid` is what the variable holds before the first `fork`.
unfoldable pub parallel_main : (String → ℤ) → ℤ → ℕ → List String → Prog ℤ
parallel_main atoi cpid fuel argv = do
  let numforks = fork_count atoi argv
  print_flush "%s will fork %d times\n" (str (arg argv 0) ∷ int numforks ∷ [])
  say (Call.sys "malloc" (nat 32 ∷ []))
  print_flush "Initial local, static, global, heap = %02x %02x %02x %02x\n" (show (vars 1))
  last ← parallel_loop (pos_part numforks) 0 cpid
  parallel_end fuel last
