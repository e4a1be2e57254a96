-- ===== src/Fork/Multi.antt =====
-- multiforkexec.c: fork, and let the child turn into a command, round after round. A child that has
-- no command, or cannot start it, stays in the loop.
pub mod Laws
use generic_tests.Common.{
  ℕ, zero, suc, ◌+◌, String, List, [], ◌∷◌, ltb, ◌==◌, if◌then◌else◌, length, drop,
}
use generic_tests.Common.Int.{ℤ, pos, minus_one, eqb_ℤ, pos_part}
use generic_tests.Sys.{
  nat, int, str, Call, Answer, Prog, ret, replaced, emit, ask, say, ◌>>=◌, ◌>>◌, skip, print,
  print_flush,
}
use generic_tests.Wait.{wait_loop, wait_failed, plain_formats}
use generic_tests.Fork.{Vars, vars, show, arg, fork_failed, fork_count}

-- `execve(argv[1], argv+1, envp)`: it returns only if it fails.
abbrev pub exec_child : List String → Prog (Unit {0})
exec_child argv =
    if length argv == 1
    then print "Need name of command to exec as first argument\n" []
    else ask (Call.execve (arg argv 1)) (λ a.
      if eqb_ℤ a.result minus_one
      then emit
          (Call.printf "Failed to start %s with %d args\n"
            (str (arg argv 1) ∷ nat (length argv) ∷ []))
          (say (Call.perror "Could not execve"))
      else replaced)

-- After the wait.
abbrev pub exec_after : Vars → Prog (Unit {0})
exec_after v = do
  print_flush "parent after child exitted local, static, global = %02x %02x %02x %02x\n" (show v)
  print_flush "parent changed local, static, global = %02x %02x %02x %02x\n" (show (vars 3))

abbrev pub exec_parent : ℕ → ℤ → Vars → Prog (Unit {0})
exec_parent fuel cpid v = do
  print_flush "parent before check if child exitted local, static, global = %02x %02x %02x %02x\n"
      (show v)
  wait_loop wait_failed plain_formats cpid fuel
  exec_after v

-- The loop over the forks: the parent goes on with new values, a child that is left with its own.
unfoldable pub multi_loop : ℕ → List String → ℕ → ℕ → Vars → Prog Vars
multi_loop fuel argv zero forkno v = ret v
multi_loop fuel argv (suc left) forkno v =
    let rest = multi_loop fuel argv left (forkno + 1) in
    ask Call.fork (λ a.
      if eqb_ℤ a.result minus_one
      then fork_failed forkno
      else if eqb_ℤ a.result (pos 0)
      then (exec_child argv >> rest v)
      else (exec_parent fuel a.result v >> rest (vars 3)))

-- The argument list after `argc--; argv++`, which skips the program's name if there is a count.
abbrev pub shift : List String → List String
shift argv = if ltb 1 (length argv) then drop 1 argv else argv

unfoldable pub multi_main : (String → ℤ) → ℕ → List String → Prog ℤ
multi_main atoi fuel argv = do
  let numforks = fork_count atoi argv
  print_flush "%s will fork %d times\n" (str (arg (shift argv) 0) ∷ int numforks ∷ [])
  say (Call.sys "malloc" (nat 32 ∷ []))
  print_flush "Initial local, static, global, heap = %02x %02x %02x %02x\n" (show (vars 1))
  multi_loop fuel (shift argv) (pos_part numforks) 0 (vars 1)
  ret (pos 0)
