-- ===== src/Fork/Single/Laws.antt =====
-- fork.c: the lines that come out twice.
use generic_tests.Common.{ℕ, suc, ◌+◌, ◌≡◌, String, List, arith}
use generic_tests.Common.Int.{ℤ, pos, suc-eq-zero}
use generic_tests.Sys.{fork}
use generic_tests.Sys.Monitor.{Meets->>=}
use generic_tests.Sys.Buffer.{dirty, buffered, flushing, Flushes, written, written-Flushes}
use generic_tests.Sys.Tree.{Env, printed, calls}
use generic_tests.Wait.{wait_loop, wait_failed, plain_formats}
use generic_tests.Fork.Order.{AnyMode, wait_loop-Flushes}
use generic_tests.Fork.Single.{only_child, only_parent, only_parent_end, fork_main}

only_parent-Flushes : (fuel : ℕ) (cpid : ℤ) → Flushes AnyMode dirty (only_parent fuel cpid)
only_parent-Flushes fuel cpid = (
  tt,
  Meets->>= flushing AnyMode AnyMode (λ _. only_parent_end) (λ m _ _. (tt, (tt, tt))) dirty
      (wait_loop wait_failed plain_formats cpid fuel)
      (wait_loop-Flushes wait_failed plain_formats cpid (λ m. (tt, tt)) fuel dirty),
)

-- fork.c with a buffered stdout, where `fork` succeeds: the processes together write two lines more
-- than they print, since the two lines before the `fork` are in the buffer that the child copies.
pub fork_written :
    (env : Env) (pid fuel : ℕ) (argv : List String)
    → (env fork).result ≡ pos (suc pid)
    → written env (buffered 0) (fork_main fuel argv) ≡ printed env (fork_main fuel argv) + 2
unfolding fork_main written printed calls
fork_written env pid fuel argv forks =
    rw (forks, suc-eq-zero pid)
      (omega (
        arith,
        written-Flushes env AnyMode (buffered 2) only_child (omega arith),
        written-Flushes env AnyMode (buffered 2) (only_parent fuel (pos (suc pid)))
            (only_parent-Flushes fuel (pos (suc pid))),
      ))
