-- ===== src/Threads/Fallen.antt =====
-- The threads of the programs of Combined: a child that cannot start its program falls off the end
-- of its function and goes on as its parent does.
use generic_tests.Common.{
  ℕ, suc, ◌≡◌, inl, inr, false, Bool-cases, List, [], ◌∷◌, String, arith, if◌then◌else◌,
}
use generic_tests.Common.Int.{ℤ, pos, minus_one, eqb_ℤ, suc-eq-zero}
use generic_tests.Sys.{execve, waitpid, sys, ret, ◌>>◌}
use generic_tests.Sys.Tree.{
  Env, calls, returns, calls->>=_once, returns->>=_once, threads, thread_weight,
}
use generic_tests.Threads.{spaces, create_loop, join_loop}
use generic_tests.Threads.ForkMulti.{childpid_formats, wait_once}
use generic_tests.Threads.Processes.{
  create_loop-once, join_loop-once, wait_once-calls, after_callsys-calls, IsFriendly,
}
use generic_tests.Threads.Combined.{
  command, five_threads, callsys_exit, callsys_exec, callsys_wait, wait_for, fork_and_pthread_main,
  forkexec_and_pthread_main, forkexecwait_and_pthread_main, execorproceed, pthreadchild_main,
}

module _ (env : Env) (pid : ℕ) (friendly : IsFriendly env pid) where
  open friendly use {forks, creates}

  five_threads-once :
      (calls thread_weight env five_threads ≡ 5) × (returns env five_threads ≡ tt ∷ [])
  unfolding five_threads
  five_threads-once =
      let made = create_loop-once env creates 1 5 0 in
      let met = join_loop-once env 5 0 spaces in
      let after = λ (u : Unit {0}). join_loop (sys "free" [] ∷ []) 5 0 spaces in
      (
        omega (
          arith,
          calls->>=_once env (create_loop 1 5 0) after made.1 thread_weight,
          made.0,
          met.0,
        ),
        rw (returns->>=_once env (create_loop 1 5 0) after made.1, met.1),
      )

  then_five : (z : ℤ) → calls thread_weight env (five_threads >> ret z) ≡ 5
  unfolding calls
  then_five z = omega (
    arith,
    calls->>=_once env five_threads (λ _. ret z) five_threads-once.1 thread_weight,
    five_threads-once.0,
  )

  fork_and_pthread_threads : threads env fork_and_pthread_main ≡ 5
  unfolding threads fork_and_pthread_main callsys_exit calls
  fork_and_pthread_threads =
      rw (forks, suc-eq-zero pid)
        (omega (arith, after_callsys-calls env pid friendly (pos (suc pid))))

  forkexec_threads :
      (garbage : ℤ) (argv : List String)
      → threads env (forkexec_and_pthread_main garbage argv)
        ≡ (if eqb_ℤ (env (execve (command argv))).result minus_one then 10 else 5)
  unfolding threads forkexec_and_pthread_main callsys_exec calls
  forkexec_threads garbage argv =
      let parent = after_callsys-calls env pid friendly (pos (suc pid)) in
      rw (forks, suc-eq-zero pid)
        (elim (Bool-cases (eqb_ℤ (env (execve (command argv))).result minus_one)) [
          | inl e ↦ rw e (omega (arith, parent, after_callsys-calls env pid friendly garbage))
          | inr e ↦ rw e (omega (arith, parent))
        ])

  wait_for-once :
      (cpid : ℤ)
      → eqb_ℤ (env (waitpid cpid)).result minus_one ≡ false
      → (calls thread_weight env (wait_for cpid) ≡ 0) × (returns env (wait_for cpid) ≡ cpid ∷ [])
  unfolding calls returns
  wait_for-once cpid alive =
      let w = wait_once childpid_formats "Childpid fork done\n" cpid in
      let (none_made, once) = wait_once-calls env childpid_formats "Childpid fork done\n" cpid in
      (
        omega (arith, calls->>=_once env w (λ _. ret cpid) (once alive) thread_weight, none_made),
        returns->>=_once env w (λ _. ret cpid) (once alive),
      )

  forkexecwait_threads :
      (garbage : ℤ)
      → eqb_ℤ (env (waitpid (pos (suc pid)))).result minus_one ≡ false
      → threads env (forkexecwait_and_pthread_main garbage)
        ≡ (if eqb_ℤ (env (execve "./hello-stat")).result minus_one then 10 else 5)
  unfolding threads forkexecwait_and_pthread_main callsys_wait calls
  forkexecwait_threads garbage alive =
      let rest = λ (z : ℤ). five_threads >> ret (pos 0) in
      let waited = wait_for-once (pos (suc pid)) alive in
      let parent = calls->>=_once env (wait_for (pos (suc pid))) rest waited.1 thread_weight in
      rw (forks, suc-eq-zero pid)
        (elim (Bool-cases (eqb_ℤ (env (execve "./hello-stat")).result minus_one)) [
          | inl e ↦ rw e (omega (arith, parent, waited.0, then_five (pos 0)))
          | inr e ↦ rw e (omega (arith, parent, waited.0, then_five (pos 0)))
        ])

  pthreadchild_threads : (garbage : ℤ) → threads env (pthreadchild_main garbage) ≡ 5
  unfolding threads pthreadchild_main execorproceed calls returns
  pthreadchild_threads garbage =
      let once = returns->>=_once env five_threads (λ _. ret garbage) five_threads-once.1 in
      let child =
        calls->>=_once env (five_threads >> ret garbage) (λ _. ret (pos 0)) once thread_weight in
      rw (forks, suc-eq-zero pid)
        (elim (Bool-cases (eqb_ℤ (env (execve "./hello-stat")).result minus_one)) [
          | inl e ↦ rw e (omega (arith, child, then_five garbage))
          | inr e ↦ rw e (omega (arith, child, then_five garbage))
        ])

  -- Where `fork` and every `pthread_create` succeed and the wait does not fail, forkexec_and_pthread.c and
  -- forkexecwait_and_pthread.c create five threads if their child can start its program, and ten if
  -- it cannot. fork_and_pthread.c and
  -- forkexecwait_and_pthreadchild.c create five in any case.
  pub combined_threads :
      (garbage : ℤ) (argv : List String)
      → eqb_ℤ (env (waitpid (pos (suc pid)))).result minus_one ≡ false
      → (threads env fork_and_pthread_main ≡ 5)
        × (threads env (forkexec_and_pthread_main garbage argv)
            ≡ (if eqb_ℤ (env (execve (command argv))).result minus_one then 10 else 5))
        × (threads env (forkexecwait_and_pthread_main garbage)
            ≡ (if eqb_ℤ (env (execve "./hello-stat")).result minus_one then 10 else 5))
        × (threads env (pthreadchild_main garbage) ≡ 5)
  combined_threads garbage argv alive = (
    fork_and_pthread_threads,
    forkexec_threads garbage argv,
    forkexecwait_threads garbage alive,
    pthreadchild_threads garbage,
  )
