-- ===== src/Msg/Tests.antt =====
-- A run of msgtest.c.
use generic_tests.Common.{◌≡◌, [], ◌∷◌}
use generic_tests.Common.Int.{ℤ, pos, minus_one}
use generic_tests.Sys.{Answer}
use generic_tests.Sys.Run.{run, done}
use generic_tests.Msg.{msgtest_main}
use generic_tests.Msg.Laws.{msgtest_result}

abbrev gives : ℤ → Answer
gives n = record { result = n; status = 0; bytes = [] }

msgtest_result_example :
    (run msgtest_main (
      gives (pos 5)
      ∷ gives (pos 1)
      ∷ gives minus_one
      ∷ gives (pos 0)
      ∷ gives (pos 2)
      ∷ gives (pos 0)
      ∷ gives (pos 0)
      ∷ gives (pos 34)
      ∷ gives (pos 34)
      ∷ gives (pos 0)
      ∷ [])).outcome
    ≡ done (pos 0) []
msgtest_result_example =
    msgtest_result (gives (pos 5)) (gives (pos 1)) (gives minus_one) (gives (pos 0)) (gives (pos 2))
      (gives (pos 0)) (gives (pos 0)) (gives (pos 34)) (gives (pos 34)) (gives (pos 0))
