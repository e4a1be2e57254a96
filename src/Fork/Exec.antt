-- ===== src/Fork/Exec.antt =====
-- forkexec.c and exec.c: a child, or the program itself, that turns into another program.
pub mod Laws
use generic_tests.Common.{ℕ, String, List, [], ◌∷◌, ◌==◌, if◌then◌else◌, length}
use generic_tests.Common.Int.{ℤ, pos, minus_one, eqb_ℤ}
use generic_tests.Sys.{
  nat, str, Call, Prog, ret, exit, replaced, emit, ask, ◌>>=◌, ◌>>◌, printf, perror, fork, execve,
}
use generic_tests.Wait.{wait_loop, wait_failed, plain_formats}
use generic_tests.Fork.{arg}

abbrev pub started : List String → Prog ℤ → Prog ℤ
started argv next =
    emit
      (printf "Main program %s started with %d args\n" (str (arg argv 0) ∷ nat (length argv) ∷ []))
      next

-- `if (execve(argv[1], argv+1, envp) == -1) …`, and the result of `main` where it fails.
abbrev pub exec_argument : List String → ℤ → Prog ℤ
exec_argument argv result = ask (execve (arg argv 1)) (λ a.
    if eqb_ℤ a.result minus_one
    then emit
        (printf "Failed to start %s with %d args\n" (str (arg argv 1) ∷ nat (length argv) ∷ []))
        (emit (perror "Could not execve") (ret result))
    else replaced)

-- `main` of forkexec.c
unfoldable pub forkexec_main : ℕ → List String → Prog ℤ
forkexec_main fuel argv = started argv (
    ask fork (λ a.
      if eqb_ℤ a.result minus_one
      then emit (perror "fork failed") (exit minus_one)
      else if eqb_ℤ a.result (pos 0)
      then (if length argv == 1
          then emit (printf "Need name of command to exec as first argument\n" []) (ret (pos 0))
          else exec_argument argv (pos 0))
      else (wait_loop wait_failed plain_formats a.result fuel >> ret (pos 0))))

-- `main` of exec.c
unfoldable pub exec_main : List String → Prog ℤ
exec_main argv = started argv (
    if length argv == 1
    then ask (execve "./hello-stat") (λ a.
      if eqb_ℤ a.result minus_one
      then emit (printf "Failed to start ./hello-stat\n" [])
          (emit (perror "Could not execve") (ret (pos 1)))
      else replaced)
    else exec_argument argv (pos 1))
