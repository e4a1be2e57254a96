-- ===== src/Fork/Parallel/Laws.antt =====
-- parallelfork.c: which child it waits for, and that its lines come out once.
use generic_tests.Common.{
  ℕ, zero, suc, ◌+◌, ◌≤◌, ◌≡◌, refl, ap, inl, inr, false, String, List, [], ◌∷◌, ◌++◌, arith,
  Bool-cases, length,
}
use generic_tests.Common.Int.{ℤ, pos, minus_one, eqb_ℤ, suc-eq-zero}
use generic_tests.Sys.{Answer, fork, printf, fflush, sys, nat, int, str, skip}
use generic_tests.Sys.Run.{Event, did, got, done, add, run, run->>=}
use generic_tests.Sys.Monitor.{Meets->>=}
use generic_tests.Sys.Buffer.{
  Mode, clean, buffered, IsClean, flushing, Flushes, written, written_once,
}
use generic_tests.Sys.Tree.{Env, printed}
use generic_tests.Wait.{plain_formats, wait_loop}
use generic_tests.Wait.Laws.{Change, IsLife, answers, story, wait_loop_lem}
use generic_tests.Fork.{vars, show, arg, fork_count}
use generic_tests.Fork.Order.{AnyMode, wait_loop-Flushes}
use generic_tests.Fork.Parallel.{parallel_loop, parallel_report, parallel_end, parallel_main}

-- The parent's answers to its forks.
abbrev pub forked : ℕ → Answer
forked pid = record { result = pos (suc pid); status = 0; bytes = [] }

abbrev pub forks : List ℕ → List Answer → List Answer
forks [] rest = rest
forks (p ∷ ps) rest = forked p ∷ forks ps rest

abbrev pub fork_events : List ℕ → List Event → List Event
fork_events [] rest = rest
fork_events (p ∷ ps) rest = got fork (forked p) ∷ fork_events ps rest

-- The last process id, or the value before the loop.
abbrev pub last_pid : ℤ → List ℕ → ℤ
last_pid cpid [] = cpid
last_pid cpid (p ∷ ps) = last_pid (pos (suc p)) ps

parallel_loop_lem :
    (ps : List ℕ) (forkno : ℕ) (cpid : ℤ) (rest : List Answer)
    → run (parallel_loop (length ps) forkno cpid) (forks ps rest)
      ≡ record { events = fork_events ps []; outcome = done (last_pid cpid ps) rest }
unfolding parallel_loop run
parallel_loop_lem [] forkno cpid rest = refl
parallel_loop_lem (p ∷ ps) forkno cpid rest =
    rw (suc-eq-zero p)
      (ap (add (got fork (forked p))) (parallel_loop_lem ps (forkno + 1) (pos (suc p)) rest))

-- parallelfork.c with `ps` as its children: all the waits are for the last of them, and after the end
-- of this one child it says that all children have exited.
pub parallel_waits_for_last :
    (atoi : String → ℤ) (cpid : ℤ) (fuel : ℕ) (argv : List String) (ps : List ℕ) (w : ℤ)
    (cs : List Change) (rest : List Answer)
    → fork_count atoi argv ≡ pos (length ps)
    → eqb_ℤ w minus_one ≡ false
    → IsLife cs
    → length cs ≤ fuel
    → run (parallel_main atoi cpid fuel argv) (forks ps (answers w cs rest)) ≡ record {
      events =
          did (printf "%s will fork %d times\n" (str (arg argv 0) ∷ int (pos (length ps)) ∷ []))
          ∷ did fflush
          ∷ did (sys "malloc" (nat 32 ∷ []))
          ∷ did
              (printf "Initial local, static, global, heap = %02x %02x %02x %02x\n" (show (vars 1)))
          ∷ did fflush
          ∷ (fork_events ps []
              ++ (story plain_formats (last_pid cpid ps) w cs
                  ++ did (
                      printf
                        "parent after all children exitted local, static, global = %02x %02x %02x %02x\n"
                        (show (vars 1)))
                    ∷ did (
                        printf "parent changed local, static, global = %02x %02x %02x %02x\n"
                          (show (vars 3)))
                    ∷ did fflush
                    ∷ []));
      outcome = done (pos 0) rest;
    }
unfolding parallel_main run
parallel_waits_for_last atoi cpid fuel argv ps w cs rest count alive life le =
    rw
      (
        count,
        run->>= (parallel_loop (length ps) 0 cpid) (parallel_end fuel)
            (forks ps (answers w cs rest)),
        parallel_loop_lem ps 0 cpid (answers w cs rest),
      )
      (rw (
        run->>= (wait_loop skip plain_formats (last_pid cpid ps) fuel) (λ _. parallel_report)
            (answers w cs rest),
        wait_loop_lem skip plain_formats (last_pid cpid ps) w fuel cs rest alive life le,
      ))

parallel_loop-Flushes :
    (left forkno : ℕ) (cpid : ℤ) (m : Mode)
    → IsClean m
    → Flushes (λ m' _. IsClean m') m (parallel_loop left forkno cpid)
unfolding parallel_loop
parallel_loop-Flushes zero forkno cpid m h = h
parallel_loop-Flushes (suc left) forkno cpid m h = (
  h,
  λ a. elim (Bool-cases (eqb_ℤ a.result minus_one)) [
    | inl e ↦ rw e (tt, (tt, tt))
    | inr e ↦ rw e (elim (Bool-cases (eqb_ℤ a.result (pos 0))) [
      | inl e2 ↦ rw e2 (omega arith)
      | inr e2 ↦ rw e2 (parallel_loop-Flushes left (forkno + 1) a.result m h)
    ])
  ],
)

-- parallelfork.c prints each line once: no line is pending at a `fork`.
pub parallel_written :
    (atoi : String → ℤ) (cpid : ℤ) (fuel : ℕ) (argv : List String) (env : Env)
    → written env (buffered 0) (parallel_main atoi cpid fuel argv)
      ≡ printed env (parallel_main atoi cpid fuel argv)
unfolding parallel_main
parallel_written atoi cpid fuel argv env =
    written_once env AnyMode (parallel_main atoi cpid fuel argv) (
      tt,
      (
        tt,
        (
          tt,
          (
            tt,
            (
              tt,
              Meets->>= flushing (λ m _. IsClean m) AnyMode (parallel_end fuel)
                  (λ m last _.
                    Meets->>= flushing AnyMode AnyMode (λ _. parallel_report)
                      (λ m' _ _. (tt, (tt, (tt, tt)))) m (wait_loop skip plain_formats last fuel)
                      (wait_loop-Flushes skip plain_formats last (λ _. tt) fuel m))
                  clean _ (parallel_loop-Flushes _ 0 cpid clean tt),
            ),
          ),
        ),
      ),
    )
