-- ===== src/Control/Processes.antt =====
-- The processes and threads that controlthreads.c comes to.
use generic_tests.Common.{
  ◌∙◌, ℕ, zero, suc, ◌+◌, ◌<◌, ◌≡◌, refl, inl, inr, false, List, [], ◌∷◌, arith, length, Bool-cases,
}
use generic_tests.Common.Int.{ℤ, pos, minus_one, eqb_ℤ, suc-eq-zero}
use generic_tests.Sys.{Arg, fork, waitpid, pthread_join, pthread_create, read, sys, ret}
use generic_tests.Sys.Tree.{
  Env, calls, returns, calls->>=, calls->>=_once, returns->>=_once, threads, thread_weight, sum_of,
}
use generic_tests.Wait.{wait_loop, wait_failed, plain_formats}
use generic_tests.Wait.Laws.{exited, encode}
use generic_tests.Wait.Order.{wait_loop-calls}
use generic_tests.Threads.{create_loop}
use generic_tests.Threads.Processes.{create_loop-once}
use generic_tests.Control.Main.{
  join_all, makethreads, read_char, fork_demon, fork_and_wait, run_threads, control_main,
  meet_threads, clean_up, after_demon,
}

-- An environment in which the calls of `main` succeed: the pipe is there, a read gives a character,
-- a wait reports an exit with `code`, and the threads are created and leave a number.
pub record IsFriendly (env : Env) (pid code : ℕ) (left : List ℕ) : Type 0 where
  pub forks : (env fork).result ≡ pos (suc pid)
  pub reads : (fd : ℤ) → (env (read fd 1)).result ≡ pos 1
  pub pipe : (env (sys "access" (Arg.str "/tmp/controlthreads_pipe" ∷ []))).result ≡ pos 0
  pub small : code < 256
  pub alive : (p : ℤ) → eqb_ℤ (env (waitpid p)).result minus_one ≡ false
  pub status : (p : ℤ) → (env (waitpid p)).status ≡ encode (exited code)
  pub creates : (i : ℕ) → (env (pthread_create i)).result ≡ pos 0
  pub joins : (i : ℕ) → (env (pthread_join i)).bytes ≡ 0 ∷ left

-- A list of two elements.
two_runs {ℓ} :
    {A : Type ℓ} (xs : List A) (g : A → ℕ) → length xs ≡ 2 → ((x : A) → g x ≡ 7) → sum_of g xs ≡ 14
two_runs [] g two seven = absurd (omega arith)
two_runs (x ∷ []) g two seven = absurd (omega arith)
two_runs (x ∷ y ∷ []) g two seven = omega (arith, seven x, seven y)
two_runs (x ∷ y ∷ z ∷ zs) g two seven = absurd (omega arith)

module _ (env : Env) (pid code : ℕ) (left : List ℕ) (friendly : IsFriendly env pid code left) where
  open friendly use {forks, reads, pipe, small, alive, status, creates, joins}

  join_all-once :
      (n i : ℕ)
      → (calls thread_weight env (join_all n i) ≡ 0) × (returns env (join_all n i) ≡ tt ∷ [])
  unfolding join_all calls returns
  join_all-once zero i = (refl, refl)
  join_all-once (suc n) i =
      let rest = join_all-once n (i + 1) in
      (rw (joins i) (omega (arith, rest.0)), rw (returns, joins i) rest.1)

  makethreads-once :
      (calls thread_weight env makethreads ≡ 7) × (returns env makethreads ≡ pos 7 ∷ [])
  unfolding makethreads calls returns
  makethreads-once =
      let made = create_loop-once env creates 1 7 0 in
      let met = join_all-once 7 0 in
      let end = calls->>=_once env (join_all 7 0) (λ _. ret (pos 7)) met.1 thread_weight in
      (
        omega (
          arith,
          calls->>=_once env (create_loop 1 7 0) (λ _. meet_threads) made.1 thread_weight,
          made.0,
          end,
          met.0,
        ),
        returns->>=_once env (create_loop 1 7 0) (λ _. meet_threads) made.1
            ∙ returns->>=_once env (join_all 7 0) (λ _. ret (pos 7)) met.1,
      )

  run_threads-calls : (demon : ℤ) → calls thread_weight env (run_threads demon) ≡ 7
  unfolding calls returns
  run_threads-calls demon = omega (
    arith,
    calls->>=_once env makethreads (clean_up demon) makethreads-once.1 thread_weight,
    makethreads-once.0,
  )

  -- In the child and in the parent.
  fork_and_wait-twice :
      (fuel : ℕ) (garbage : ℤ)
      → (calls thread_weight env (fork_and_wait (suc fuel) garbage) ≡ 0)
        × (length (returns env (fork_and_wait (suc fuel) garbage)) ≡ 2)
  unfolding fork_and_wait read_char calls returns
  fork_and_wait-twice fuel garbage =
      let loop =
        wait_loop-calls thread_weight env wait_failed plain_formats (pos (suc pid)) fuel
          (exited code) (alive (pos (suc pid))) (status (pos (suc pid))) small refl in
      let body = wait_loop wait_failed plain_formats (pos (suc pid)) (suc fuel) in
      rw
        (
          reads,
          forks,
          suc-eq-zero pid,
          calls->>=_once env body (λ _. ret garbage) loop.1 thread_weight,
          returns->>=_once env body (λ _. ret garbage) loop.1,
          loop.0,
        )
        (refl, refl)

  fork_demon-once :
      (fuel : ℕ)
      → (calls thread_weight env (fork_demon (suc fuel)) ≡ 0)
        × (returns env (fork_demon (suc fuel)) ≡ pos (suc pid) ∷ [])
  unfolding fork_demon read_char calls returns
  fork_demon-once fuel = rw (forks, suc-eq-zero pid, reads) (refl, refl)

  after_demon-calls :
      (fuel : ℕ) (garbage demon : ℤ)
      → calls thread_weight env (after_demon (suc fuel) garbage demon) ≡ 14
  after_demon-calls fuel garbage demon =
      let forked = fork_and_wait-twice fuel garbage in
      omega (
        arith,
        calls->>= thread_weight env (fork_and_wait (suc fuel) garbage) (λ _. run_threads demon),
        forked.0,
        two_runs (returns env (fork_and_wait (suc fuel) garbage))
            (λ _. calls thread_weight env (run_threads demon)) forked.1
            (λ _. run_threads-calls demon),
      )

  -- controlthreads.c, where its calls succeed: the child of `fork_and_wait` returns into `main` like
  -- its parent, so the seven threads are created twice.
  pub control_creates_twice :
      (fuel : ℕ) (garbage : ℤ) → threads env (control_main (suc fuel) garbage) ≡ 14
  unfolding control_main threads calls returns
  control_creates_twice fuel garbage =
      let demon = fork_demon-once fuel in
      let rest =
        calls->>=_once env (fork_demon (suc fuel)) (after_demon (suc fuel) garbage) demon.1
          thread_weight in
      rw pipe (elim (Bool-cases (eqb_ℤ (env (sys "access" (Arg.str "/tmp" ∷ []))).result (pos 0))) [
        | inl e ↦
            rw e (omega (arith, rest, demon.0, after_demon-calls fuel garbage (pos (suc pid))))
        | inr e ↦
            rw e (omega (arith, rest, demon.0, after_demon-calls fuel garbage (pos (suc pid))))
      ])
