-- ===== src/Clone/Tests.antt =====
-- Runs of clone.c.
use generic_tests.Common.{◌≡◌, true, arith}
use generic_tests.Wait.Laws.{signaled, encode}
use generic_tests.Clone.{segv_verdict, fpe_verdict, term_verdict, stop_verdict}
use generic_tests.Clone.Laws.{of_fault, of_term, of_stop, verdicts-encode}

verdicts-encode_example :
    (segv_verdict (encode (signaled 11 true))
      ≡ of_fault 11 "killed by segfault as expected\n"
          "Expect segfault but killed unexpectedly by signal %d\n"
          "Expect segfault but unexpectedly exited normally, status=%d\n"
          "Expect segfault but unexpectedly continued or stopped\n"
          (signaled 11 true))
    × (fpe_verdict (encode (signaled 11 true))
        ≡ of_fault 8 "killed by floating point error as expected\n"
            "Expect fpe but killed unexpectedly by signal %d\n"
            "Expect fpe but unexpectedly exited normally, status=%d\n"
            "Expect fpe but unexpectedly continued or stopped\n"
            (signaled 11 true))
    × (term_verdict (encode (signaled 11 true)) ≡ of_term (signaled 11 true))
    × (stop_verdict (encode (signaled 11 true)) ≡ of_stop (signaled 11 true))
verdicts-encode_example = verdicts-encode (signaled 11 true) (omega arith)
