-- ===== src/Fork/Exec/Laws.antt =====
-- forkexec.c: the line that comes out once or twice.
use generic_tests.Common.{
  ℕ, suc, ◌+◌, ◌≡◌, String, List, arith, ◌==◌, ◌||◌, length, if◌then◌else◌, Bool-cases, inl, inr,
}
use generic_tests.Common.Int.{ℤ, pos, suc-eq-zero, minus_one, eqb_ℤ}
use generic_tests.Sys.{fork, execve, ret, ◌>>◌, Prog}
use generic_tests.Sys.Monitor.{Meets->>=}
use generic_tests.Sys.Buffer.{dirty, buffered, flushing, Flushes, written, written-Flushes}
use generic_tests.Sys.Tree.{Env, printed, calls}
use generic_tests.Wait.{wait_loop, wait_failed, plain_formats}
use generic_tests.Fork.{arg}
use generic_tests.Fork.Order.{AnyMode, wait_loop-Flushes}
use generic_tests.Fork.Exec.{forkexec_main}

abbrev pub waiting_parent : ℕ → ℤ → Prog ℤ
waiting_parent fuel cpid = wait_loop wait_failed plain_formats cpid fuel >> ret (pos 0)

waiting_parent-Flushes : (fuel : ℕ) (cpid : ℤ) → Flushes AnyMode dirty (waiting_parent fuel cpid)
waiting_parent-Flushes fuel cpid =
    Meets->>= flushing AnyMode AnyMode (λ _. ret (pos 0)) (λ m _ _. tt) dirty
      (wait_loop wait_failed plain_formats cpid fuel)
      (wait_loop-Flushes wait_failed plain_formats cpid (λ m. (tt, tt)) fuel dirty)

-- forkexec.c with a buffered stdout, where `fork` succeeds: its processes together write one line more
-- than they print if the child has no command or cannot start it, and as many as they print if it can.
pub forkexec_written :
    (env : Env) (pid fuel : ℕ) (argv : List String)
    → (env fork).result ≡ pos (suc pid)
    → written env (buffered 0) (forkexec_main fuel argv)
      ≡ printed env (forkexec_main fuel argv)
        + (if (length argv == 1) || eqb_ℤ (env (execve (arg argv 1))).result minus_one
            then 1
            else 0)
unfolding forkexec_main written printed calls
forkexec_written env pid fuel argv forks =
    let parent =
      written-Flushes env AnyMode (buffered 1) (waiting_parent fuel (pos (suc pid)))
        (waiting_parent-Flushes fuel (pos (suc pid))) in
    rw (forks, suc-eq-zero pid)
      (elim (Bool-cases (length argv == 1)) [
        | inl e ↦ rw e (omega (arith, parent))
        | inr e ↦ rw e (elim (Bool-cases (eqb_ℤ (env (execve (arg argv 1))).result minus_one)) [
          | inl e2 ↦ rw e2 (omega (arith, parent))
          | inr e2 ↦ rw e2 (omega (arith, parent))
        ])
      ])
