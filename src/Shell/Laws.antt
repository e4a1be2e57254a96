-- ===== src/Shell/Laws.antt =====
-- The line of `callsys` for each thing that `system` can give.
use generic_tests.Common.{◌≡◌, refl, true, false, String, List, [], ◌∷◌, arith, ◌==◌, if◌then◌else◌}
use generic_tests.Common.Int.{ℤ, pos, minus_one}
use generic_tests.Sys.{nat, str, Answer, Call, sys, printf, perror}
use generic_tests.Sys.Run.{run, did, got, done}
use generic_tests.Wait.Laws.{Change, exited, signaled, stopped, continued, encode, IsChange}
use generic_tests.Shell.{system_report, callsys}

-- What became of a shell, as a line.
abbrev pub system_line : String → Change → Call
system_line name (exited n) =
    if n == 127
    then printf "Call to system(%s) could not be executed\n" (str name ∷ [])
    else printf "Call to system(%s) returned %d\n" (str name ∷ nat n ∷ [])
system_line name (signaled n core) =
    printf "Call to system(%s) killed by signal %d\n" (str name ∷ nat n ∷ [])
system_line name (stopped n) =
    printf "Call to system(%s) stopped by signal %d\n" (str name ∷ nat n ∷ [])
system_line name continued = printf "Call to system(%s) continued\n" (str name ∷ [])

-- What `system` answers.
abbrev pub gives : ℤ → Answer
gives n = record { result = n; status = 0; bytes = [] }

-- Where `system` runs a shell, `callsys` prints the one line for what became of it; where it gives
-- -1, it prints the error and nothing else.
pub callsys_lem :
    (name : String) (c : Change) (rest : List Answer)
    → IsChange c
    → (run (callsys name) (gives (pos (encode c)) ∷ rest) ≡ record {
      events =
          got (sys "system" (str name ∷ [])) (gives (pos (encode c)))
          ∷ did (system_line name c)
          ∷ [];
      outcome = done tt rest;
    })
      × (run (callsys name) (gives minus_one ∷ rest) ≡ record {
        events =
            got (sys "system" (str name ∷ [])) (gives minus_one)
            ∷ did (perror "Call to system failed")
            ∷ [];
        outcome = done tt rest;
      })
unfolding callsys system_report run
callsys_lem name (exited n) rest h = (ground arith, refl)
callsys_lem name (signaled n true) rest h = (ground arith, refl)
callsys_lem name (signaled n false) rest h = (ground arith, refl)
callsys_lem name (stopped n) rest h = (ground arith, refl)
callsys_lem name continued rest h = (refl, refl)
