-- ===== src/Fork/Multi/Laws.antt =====
-- multiforkexec.c: how many processes it comes to.
use generic_tests.Common.{
  ℕ, zero, suc, ◌+◌, ◌^◌, ◌<◌, ◌≡◌, refl, false, String, List, [], ◌∷◌, arith, length,
}
use native.Mathlib.Nat.{pow-suc}
use generic_tests.Common.Int.{ℤ, pos, minus_one, eqb_ℤ, pos_part, suc-eq-zero, suc-suc-eq-one}
use generic_tests.Sys.{Prog, ◌>>◌, ret, execve, fork, waitpid}
use generic_tests.Sys.Tree.{
  Env, sum_of-zero, calls->>=, fork_weight, calls, calls->>=_once, returns->>=_once, returns,
  processes,
}
use generic_tests.Wait.{wait_loop, wait_failed, plain_formats}
use generic_tests.Wait.Laws.{exited, encode}
use generic_tests.Wait.Order.{wait_loop-calls}
use generic_tests.Fork.{Vars, vars, fork_count}
use generic_tests.Fork.Multi.{exec_parent, exec_after, multi_loop, shift, multi_main}

-- An environment in which every `fork` succeeds and every wait reports an exit with `code`.
pub record IsFriendly (env : Env) (pid code : ℕ) : Type 0 where
  pub forks : (env fork).result ≡ pos (suc pid)
  pub small : code < 256
  pub alive : (p : ℤ) → eqb_ℤ (env (waitpid p)).result minus_one ≡ false
  pub status : (p : ℤ) → (env (waitpid p)).status ≡ encode (exited code)

module _ (env : Env) (pid code : ℕ) (friendly : IsFriendly env pid code) where
  open friendly use {forks, small, alive, status}

  -- The parent's part forks nothing, and it goes on.
  exec_parent-calls :
      (fuel : ℕ) (cpid : ℤ) (v : Vars) (rest : Prog Vars)
      → calls fork_weight env (exec_parent (suc fuel) cpid v >> rest) ≡ calls fork_weight env rest
  unfolding calls returns
  exec_parent-calls fuel cpid v rest =
      let loop =
        wait_loop-calls fork_weight env wait_failed plain_formats cpid fuel (exited code)
          (alive cpid) (status cpid) small refl in
      let body = wait_loop wait_failed plain_formats cpid (suc fuel) in
      let twice = returns->>=_once env body (λ _. exec_after v) loop.1 in
      omega (
        arith,
        loop.0,
        calls->>=_once env body (λ _. exec_after v) loop.1 fork_weight,
        calls->>=_once env (body >> exec_after v) (λ _. rest) twice fork_weight,
      )

  multi_loop-calls :
      (fuel : ℕ) (name : String) (left forkno : ℕ) (v : Vars)
      → calls fork_weight env (multi_loop (suc fuel) (name ∷ []) left forkno v) + 1 ≡ 2 ^ left
  unfolding multi_loop calls
  multi_loop-calls fuel name zero forkno v = omega arith
  multi_loop-calls fuel name (suc left) forkno v =
      rw
        (
          forks,
          suc-eq-zero pid,
          exec_parent-calls fuel (pos (suc pid)) v
              (multi_loop (suc fuel) (name ∷ []) left (forkno + 1) (vars 3)),
        )
        (simp pow-suc (
          omega (
            arith,
            multi_loop-calls fuel name left (forkno + 1) v,
            multi_loop-calls fuel name left (forkno + 1) (vars 3),
          )))

  multi_main-calls :
      (atoi : String → ℤ) (fuel : ℕ) (argv : List String)
      → calls fork_weight env (multi_main atoi fuel argv)
        ≡ calls fork_weight env
            (multi_loop fuel (shift argv) (pos_part (fork_count atoi argv)) 0 (vars 1))
  unfolding multi_main calls
  multi_main-calls atoi fuel argv =
      let loop = multi_loop fuel (shift argv) (pos_part (fork_count atoi argv)) 0 (vars 1) in
      omega
        (arith, calls->>= fork_weight env loop (λ _. ret (pos 0)), sum_of-zero (returns env loop))

  -- multiforkexec.c without a command, where every `fork` succeeds: each child that says "Need name
  -- of command" stays in the loop, so `numforks` rounds come to `2 ^ numforks` processes.
  pub multi_doubles :
      (atoi : String → ℤ) (fuel n : ℕ) (argv : List String) (name : String)
      → fork_count atoi argv ≡ pos n
      → shift argv ≡ name ∷ []
      → processes env (multi_main atoi (suc fuel) argv) ≡ 2 ^ n
  unfolding processes
  multi_doubles atoi fuel n argv name count alone =
      rw (multi_main-calls atoi (suc fuel) argv, count, alone)
        (omega (arith, multi_loop-calls fuel name n 0 (vars 1)))

  multi_loop-commands :
      (fuel : ℕ) (name command : String) (args : List String) (left forkno : ℕ) (v : Vars)
      → eqb_ℤ (env (execve command)).result minus_one ≡ false
      → calls fork_weight env (multi_loop (suc fuel) (name ∷ command ∷ args) left forkno v) ≡ left
  unfolding multi_loop calls
  multi_loop-commands fuel name command args zero forkno v starts = refl
  multi_loop-commands fuel name command args (suc left) forkno v starts =
      rw
        (
          forks,
          suc-eq-zero pid,
          suc-suc-eq-one (length args),
          starts,
          exec_parent-calls fuel (pos (suc pid)) v
              (multi_loop (suc fuel) (name ∷ command ∷ args) left (forkno + 1) (vars 3)),
        )
        (omega
          (arith, multi_loop-commands fuel name command args left (forkno + 1) (vars 3) starts))

  -- multiforkexec.c with a command that can be started: one process for each round, and the parent.
  pub multi_starts :
      (atoi : String → ℤ) (fuel n : ℕ) (argv : List String) (name command : String)
      (args : List String)
      → fork_count atoi argv ≡ pos n
      → shift argv ≡ name ∷ command ∷ args
      → eqb_ℤ (env (execve command)).result minus_one ≡ false
      → processes env (multi_main atoi (suc fuel) argv) ≡ n + 1
  unfolding processes
  multi_starts atoi fuel n argv name command args count args_are starts =
      rw (multi_main-calls atoi (suc fuel) argv, count, args_are)
        (omega (arith, multi_loop-commands fuel name command args n 0 (vars 1) starts))
