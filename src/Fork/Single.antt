-- ===== src/Fork/Single.antt =====
-- fork.c: one child, and no flush.
pub mod Laws
use generic_tests.Common.{ℕ, ◌+◌, String, List, [], ◌∷◌, ◌++◌, if◌then◌else◌, length}
use generic_tests.Common.Int.{ℤ, pos, minus_one, eqb_ℤ}
use generic_tests.Sys.{
  nat, int, str, Call, Prog, ret, exit, emit, ask, say, skip, ◌>>=◌, ◌>>◌, print, perror, fork, sys,
}
use generic_tests.Wait.{wait_loop, wait_failed, plain_formats}
use generic_tests.Fork.{vars, show, identity, arg}

-- The branch of the child, and what follows it.
abbrev pub only_child : Prog ℤ
only_child = do
  me ← identity
  print "Child PID %d, parent PID %d, uid %d, euid %d, gid %d, egid %d\n" me
  print "child local, static, global = %02x %02x %02x %02x\n" (show (vars 1))
  print "child changed local, static, global = %02x %02x %02x %02x\n" (show (vars 2))
  ret (pos 0)

-- After the wait.
abbrev pub only_parent_end : Prog ℤ
only_parent_end = do
  print "parent after child exitted local, static, global = %02x %02x %02x %02x\n" (show (vars 1))
  print "parent changed local, static, global = %02x %02x %02x %02x\n" (show (vars 3))
  ret (pos 0)

abbrev pub only_parent : ℕ → ℤ → Prog ℤ
only_parent fuel cpid =
    emit
      (Call.printf
        "parent before check if child exitted local, static, global = %02x %02x %02x %02x\n"
        (show (vars 1)))
      (wait_loop wait_failed plain_formats cpid fuel >> only_parent_end)

-- `main`; the arguments are argv.
unfoldable pub fork_main : ℕ → List String → Prog ℤ
fork_main fuel argv =
    emit
      (Call.printf "Main program %s started with %d args\n"
        (str (arg argv 0) ∷ nat (length argv) ∷ []))
      (emit (sys "malloc" (nat 32 ∷ [])) (
        emit
          (Call.printf "Initial local, static, global, heap = %02x %02x %02x %02x\n"
            (show (vars 1)))
          (ask fork (λ a.
            if eqb_ℤ a.result minus_one
            then emit (perror "fork failed") (exit minus_one)
            else if eqb_ℤ a.result (pos 0)
            then only_child
            else only_parent fuel a.result))))
