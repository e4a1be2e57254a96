-- ===== src/Threads/Processes.antt =====
-- The threads that all the processes of forkmulti.c come to.
use generic_tests.Common.{
  false, ℕ, zero, suc, ◌+◌, ◌≡◌, refl, inl, inr, Bool-cases, String, List, [], ◌∷◌, arith, ltb,
  length, if◌then◌else◌,
}
use generic_tests.Common.Int.{ℤ, pos, minus_one, eqb_ℤ, suc-eq-zero}
use generic_tests.Sys.{fork, execve, waitpid, pthread_create, sys, ◌>>◌, print_flush, ret}
use generic_tests.Sys.Tree.{
  Env, calls, returns, calls->>=, calls->>=_once, returns->>=_once, threads, thread_weight,
}
use generic_tests.Wait.Order.{report-once}
use generic_tests.Wait.{Formats, report}
use generic_tests.Fork.{arg}
use generic_tests.Threads.{spaces, create_loop, join_loop}
use generic_tests.Threads.ForkMulti.{
  callsys, wait_once, childpid_formats, after_callsys, forkmulti_main,
}

module _ (env : Env) (creates : (i : ℕ) → (env (pthread_create i)).result ≡ pos 0) where
  -- The loop over `pthread_create` makes its threads and returns once.
  pub create_loop-once :
      (first n i : ℕ)
      → (calls thread_weight env (create_loop first n i) ≡ n)
        × (returns env (create_loop first n i) ≡ tt ∷ [])
  unfolding create_loop calls returns
  create_loop-once first zero i = (refl, refl)
  create_loop-once first (suc n) i =
      let rest = create_loop-once first n (i + 1) in
      (rw (creates i) (omega (arith, rest.0)), rw (returns, creates i) rest.1)

module _ (env : Env) where
  pub join_loop-once :
      (n i : ℕ) (pad : List ℕ)
      → (calls thread_weight env (join_loop (sys "free" [] ∷ []) n i pad) ≡ 0)
        × (returns env (join_loop (sys "free" [] ∷ []) n i pad) ≡ tt ∷ [])
  unfolding join_loop calls returns
  join_loop-once zero i pad = (refl, refl)
  join_loop-once (suc n) i pad =
      let rest = join_loop-once n (i + 1) _ in (omega (arith, rest.0), rest.1)

  -- The wait at the end creates no thread, and it returns once if it does not fail.
  pub wait_once-calls :
      (f : Formats) (last : String) (childpid : ℤ)
      → (calls thread_weight env (wait_once f last childpid) ≡ 0)
        × (eqb_ℤ (env (waitpid childpid)).result minus_one ≡ false
            → returns env (wait_once f last childpid) ≡ pos 0 ∷ [])
  unfolding calls returns
  wait_once-calls f last childpid =
      let st = (env (waitpid childpid)).status in
      let after = λ (u : Unit {0}). print_flush last [] >> ret (pos 0) in
      let ladder = report-once thread_weight env f st (λ format args. refl) in
      (
        elim (Bool-cases (eqb_ℤ (env (waitpid childpid)).result minus_one)) [
          | inl e ↦ rw e refl
          | inr e ↦
              rw (e, calls->>=_once env (report f st) after ladder.1 thread_weight, ladder.0) refl
        ],
        λ alive. rw (returns, alive, returns->>=_once env (report f st) after ladder.1),
      )

-- An environment in which `fork` and the calls of `pthread_create` succeed.
pub record IsFriendly (env : Env) (pid : ℕ) : Type 0 where
  pub forks : (env fork).result ≡ pos (suc pid)
  pub creates : (i : ℕ) → (env (pthread_create i)).result ≡ pos 0

module _ (env : Env) (pid : ℕ) (friendly : IsFriendly env pid) where
  open friendly use {forks, creates}

  pub after_callsys-calls : (childpid : ℤ) → calls thread_weight env (after_callsys childpid) ≡ 5
  unfolding after_callsys
  after_callsys-calls childpid =
      let made = create_loop-once env creates 1 5 0 in
      let met = join_loop-once env 5 0 spaces in
      omega (
        arith,
        calls->>=_once env (create_loop 1 5 0)
            (λ _.
              join_loop (sys "free" [] ∷ []) 5 0 spaces
              >> wait_once childpid_formats "Childpid fork done\n" childpid)
            made.1 thread_weight,
        made.0,
        calls->>=_once env (join_loop (sys "free" [] ∷ []) 5 0 spaces)
            (λ _. wait_once childpid_formats "Childpid fork done\n" childpid) met.1 thread_weight,
        met.0,
        (wait_once-calls env childpid_formats "Childpid fork done\n" childpid).0,
      )

  -- forkmulti.c, where `fork` and every `pthread_create` succeed: it creates five threads if its
  -- child can start ./hello-stat, and ten if it cannot, since the child then goes on in `main`.
  pub forkmulti_threads :
      (garbage : ℤ) (argv : List String)
      → threads env (forkmulti_main garbage argv)
        ≡ (if eqb_ℤ (env (execve "./hello-stat")).result minus_one then 10 else 5)
  unfolding threads forkmulti_main callsys calls returns
  forkmulti_threads garbage argv =
      let name = if ltb 1 (length argv) then arg argv 1 else "./test.sh" in
      let parent = after_callsys-calls (pos (suc pid)) in
      rw
        (
          calls->>= thread_weight env (callsys garbage name) after_callsys,
          callsys,
          returns,
          calls,
          forks,
          suc-eq-zero pid,
        )
        (elim (Bool-cases (eqb_ℤ (env (execve "./hello-stat")).result minus_one)) [
          | inl e ↦ rw e (omega (arith, parent, after_callsys-calls garbage))
          | inr e ↦ rw e (omega (arith, parent))
        ])
