-- ===== src/Shell/Tests.antt =====
-- A run of `callsys`.
use generic_tests.Common.{◌≡◌, [], ◌∷◌, arith}
use generic_tests.Common.Int.{pos, minus_one}
use generic_tests.Sys.{str, sys, perror}
use generic_tests.Sys.Run.{run, got, did, done}
use generic_tests.Wait.Laws.{exited, encode}
use generic_tests.Shell.{callsys}
use generic_tests.Shell.Laws.{system_line, gives, callsys_lem}

callsys_example :
    (run (callsys "./test.sh") (gives (pos (encode (exited 3))) ∷ []) ≡ record {
      events =
          got (sys "system" (str "./test.sh" ∷ [])) (gives (pos (encode (exited 3))))
          ∷ did (system_line "./test.sh" (exited 3))
          ∷ [];
      outcome = done tt [];
    })
    × (run (callsys "./test.sh") (gives minus_one ∷ []) ≡ record {
      events =
          got (sys "system" (str "./test.sh" ∷ [])) (gives minus_one)
          ∷ did (perror "Call to system failed")
          ∷ [];
      outcome = done tt [];
    })
callsys_example = callsys_lem "./test.sh" (exited 3) [] (omega arith)
