-- ===== src/Wait/Tests.antt =====
-- A child that is stopped, goes on and exits with 3, seen by the loop.
use generic_tests.Common.{◌≡◌, refl, false, [], ◌∷◌, arith}
use generic_tests.Common.Int.{pos}
use generic_tests.Sys.{say, skip}
use generic_tests.Sys.Run.{run, done}
use generic_tests.Wait.{plain_formats, report, wait_loop}
use generic_tests.Wait.Laws.{
  exited, stopped, signaled, continued, encode, line, answers, story, report-encode, wait_loop_lem,
}

report-encode_example :
    report plain_formats (encode (signaled 9 false)) ≡ say (line plain_formats (signaled 9 false))
report-encode_example = report-encode plain_formats (signaled 9 false) (omega arith)

wait_loop_example :
    run
      (wait_loop skip plain_formats (pos 7) 3)
      (answers (pos 7) (stopped 19 ∷ continued ∷ exited 3 ∷ []) [])
    ≡ record {
      events = story plain_formats (pos 7) (pos 7) (stopped 19 ∷ continued ∷ exited 3 ∷ []);
      outcome = done tt [];
    }
wait_loop_example =
    wait_loop_lem skip plain_formats (pos 7) (pos 7) 3 (stopped 19 ∷ continued ∷ exited 3 ∷ []) []
      refl (omega arith, refl, (tt, refl, (omega arith, refl))) (omega arith)
