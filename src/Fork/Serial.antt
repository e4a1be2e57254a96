-- ===== src/Fork/Serial.antt =====
-- serialfork.c: fork a child, wait for its end, fork the next.
pub mod Laws
use generic_tests.Common.{ℕ, zero, suc, ◌+◌, String, List, [], ◌∷◌, ◌++◌, if◌then◌else◌}
use generic_tests.Common.Int.{ℤ, pos, minus_one, eqb_ℤ, pos_part}
use generic_tests.Sys.{
  nat, int, str, Call, Answer, Prog, ret, exit, ask, say, ◌>>=◌, ◌>>◌, print, print_flush,
}
use generic_tests.Wait.{wait_loop, plain_formats, wait_failed}
use generic_tests.Fork.{Vars, vars, show, identity, arg, fork_failed, fork_count}

-- The branch of the child.
abbrev pub child_branch : ℕ → Vars → Prog Vars
child_branch forkno v = do
  me ← identity
  print "Child %d: PID %d, parent PID %d, uid %d, euid %d, gid %d, egid %d\n" (nat forkno ∷ me)
  print_flush " child local, static, global = %02x %02x %02x %02x\n" (show v)
  print_flush " child changed local, static, global = %02x %02x %02x %02x\n" (show (vars 2))
  exit (pos forkno)

-- After the wait: the line, and the new values.
abbrev pub parent_end : Vars → Prog (Unit {0})
parent_end v = do
  print "parent after child exitted local, static, global = %02x %02x %02x %02x\n" (show v)
  print_flush "parent changed local, static, global = %02x %02x %02x %02x\n" (show (vars 3))

-- The branch of the parent, with the loop over the wait on its fuel.
abbrev pub parent_branch : ℕ → ℤ → Vars → Prog (Unit {0})
parent_branch fuel cpid v = do
  print_flush "parent before check if child exitted local, static, global = %02x %02x %02x %02x\n"
      (show v)
  wait_loop wait_failed plain_formats cpid fuel
  parent_end v

-- `for (forkno=0; forkno<numforks; forkno++)`, by the rounds that are left.
unfoldable pub serial_loop : ℕ → ℕ → ℕ → Vars → Prog Vars
serial_loop fuel zero forkno v = ret v
serial_loop fuel (suc left) forkno v =
    let rest = serial_loop fuel left (forkno + 1) (vars 3) in
    ask Call.fork (λ a.
      if eqb_ℤ a.result minus_one
      then fork_failed forkno
      else if eqb_ℤ a.result (pos 0)
      then child_branch forkno v
      else (parent_branch fuel a.result v >> rest))

-- `atoi` is the C library's.
unfoldable pub serial_main : (String → ℤ) → ℕ → List String → Prog ℤ
serial_main atoi fuel argv = do
  let numforks = fork_count atoi argv
  print_flush "%s will fork %d times\n" (str (arg argv 0) ∷ int numforks ∷ [])
  say (Call.sys "malloc" (nat 32 ∷ []))
  print_flush "Initial local, static, global, heap = %02x %02x %02x %02x\n" (show (vars 1))
  serial_loop fuel (pos_part numforks) 0 (vars 1)
  ret (pos 0)
