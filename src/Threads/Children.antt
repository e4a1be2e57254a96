-- ===== src/Threads/Children.antt =====
-- The children that a thread of processesgalore.c comes to.
use generic_tests.Common.{ℕ, zero, suc, ◌+◌, ◌≡◌, refl, inl, inr, Bool-cases, arith, if◌then◌else◌}
use generic_tests.Common.Int.{ℤ, pos, minus_one, eqb_ℤ, suc-eq-zero}
use generic_tests.Sys.{ret, fork, waitpid, fflush, say, skip, ◌>>◌}
use generic_tests.Sys.Tree.{Env, calls, returns, calls->>=, sum_of-all_zero, processes, fork_weight}
use generic_tests.Wait.Order.{report-once}
use generic_tests.Wait.{report, goes_on}
use generic_tests.Threads.Galore.{galore_loop, galore_wait, galore_formats, after_forks, do_thread}

module _ (env : Env) where
  galore_wait-forks :
      (thread_id : ℕ) (cpid : ℤ) (fuel : ℕ)
      → calls fork_weight env (galore_wait thread_id cpid fuel) ≡ 0
  unfolding galore_wait calls
  galore_wait-forks thread_id cpid zero = refl
  galore_wait-forks thread_id cpid (suc fuel) =
      let a = env (waitpid cpid) in
      let f = galore_formats thread_id a.result in
      let next = if goes_on a.status then galore_wait thread_id cpid fuel else skip in
      elim (Bool-cases (eqb_ℤ a.result minus_one)) [
        | inl e ↦ rw e refl
        | inr e ↦ rw e (
            omega (
              arith,
              calls->>= fork_weight env (report f a.status) (λ _. say fflush >> next),
              (report-once fork_weight env f a.status (λ format args. refl)).0,
              sum_of-all_zero (λ _. calls fork_weight env (say fflush >> next))
                  (returns env (report f a.status))
                  (λ _. elim (Bool-cases (goes_on a.status)) [
                    | inl g ↦ rw g (omega (arith, galore_wait-forks thread_id cpid fuel))
                    | inr g ↦ rw g refl
                  ]),
            ))
      ]

  galore_loop-forks :
      (pid thread_id left forkno : ℕ) (cpid : ℤ)
      → (env fork).result ≡ pos (suc pid)
      → calls fork_weight env (galore_loop thread_id left forkno cpid) ≡ left
  unfolding galore_loop calls
  galore_loop-forks pid thread_id zero forkno cpid forks = refl
  galore_loop-forks pid thread_id (suc left) forkno cpid forks =
      rw (forks, suc-eq-zero pid)
        (omega (arith, galore_loop-forks pid thread_id left (forkno + 1) (pos (suc pid)) forks))

  after_forks-forks :
      (thread_id fuel : ℕ) (last : ℤ) → calls fork_weight env (after_forks fuel thread_id last) ≡ 0
  unfolding after_forks calls
  after_forks-forks thread_id fuel last = omega (
    arith,
    calls->>= fork_weight env (galore_wait thread_id last fuel) (λ _. ret (pos thread_id)),
    galore_wait-forks thread_id last fuel,
    sum_of-all_zero (λ _. 0) (returns env (galore_wait thread_id last fuel)) (λ _. refl),
  )

  -- A thread of processesgalore.c, where `fork` succeeds, comes to thread_id + 3 processes: its own
  -- and thread_id + 2 children, none of which forks.
  pub galore_children :
      (pid thread_id fuel : ℕ) (cpid : ℤ)
      → (env fork).result ≡ pos (suc pid)
      → processes env (do_thread cpid fuel thread_id) ≡ thread_id + 3
  unfolding processes do_thread calls
  galore_children pid thread_id fuel cpid forks = omega (
    arith,
    calls->>= fork_weight env (galore_loop thread_id (thread_id + 2) 0 cpid)
        (after_forks fuel thread_id),
    galore_loop-forks pid thread_id (thread_id + 2) 0 cpid forks,
    sum_of-all_zero (λ last. calls fork_weight env (after_forks fuel thread_id last))
        (returns env (galore_loop thread_id (thread_id + 2) 0 cpid))
        (after_forks-forks thread_id fuel),
  )
