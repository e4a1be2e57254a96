-- ===== src/Clone/Laws.antt =====
-- The lines of clone.c on every end of a child.
use generic_tests.Common.{ℕ, ◌≡◌, refl, String, [], ◌∷◌, arith, ◌==◌, if◌then◌else◌, true, false}
use generic_tests.Sys.{nat, Call, printf}
use generic_tests.Wait.Laws.{Change, exited, signaled, stopped, continued, encode, IsChange}
use generic_tests.Clone.{fault_verdict, segv_verdict, fpe_verdict, term_verdict, stop_verdict}

-- What the lines are to say of each change of a child.
abbrev pub of_fault : ℕ → String → String → String → String → Change → Call
of_fault sig expected killed_by left odd (signaled n core) =
    if n == sig then printf expected [] else printf killed_by (nat n ∷ [])
of_fault sig expected killed_by left odd (exited n) = printf left (nat n ∷ [])
of_fault sig expected killed_by left odd _ = printf odd []

abbrev pub of_term : Change → Call
of_term (signaled n core) =
    if n == 15
    then printf "killed by sigterm as expected\n" []
    else printf "Expect sigterm but killed unexpectedly by signal %d\n" (nat n ∷ [])
of_term (exited n) = printf "Exited normally but expected sigterm , status=%d\n" (nat n ∷ [])
of_term (stopped n) = printf "stopped by signal %d\n" (nat n ∷ [])
of_term continued = printf "Unexpectedly continued or stopped\n" []

abbrev pub of_stop : Change → Call
of_stop (signaled n core) = printf "Unexpectedly killed  by signal %d\n" (nat n ∷ [])
of_stop (exited n) = printf "Exited normally as expected, status=%d\n" (nat n ∷ [])
of_stop (stopped n) =
    if n == 19
    then printf "stopped by sig stop as expected\n" []
    else printf "stopped by signal %d not %d\n" (nat n ∷ nat 19 ∷ [])
of_stop continued = printf "Unexpectedly continued or stopped\n" []

fault_verdict-encode :
    (sig : ℕ) (a b c d : String) (change : Change)
    → IsChange change
    → fault_verdict sig a b c d (encode change) ≡ of_fault sig a b c d change
unfolding fault_verdict
fault_verdict-encode sig a b c d (exited n) h = ground arith
fault_verdict-encode sig a b c d (signaled n true) h = ground arith
fault_verdict-encode sig a b c d (signaled n false) h = ground arith
fault_verdict-encode sig a b c d (stopped n) h = ground arith
fault_verdict-encode sig a b c d continued h = refl

term_verdict-encode :
    (change : Change) → IsChange change → term_verdict (encode change) ≡ of_term change
unfolding term_verdict
term_verdict-encode (exited n) h = ground arith
term_verdict-encode (signaled n true) h = ground arith
term_verdict-encode (signaled n false) h = ground arith
term_verdict-encode (stopped n) h = ground arith
term_verdict-encode continued h = refl

stop_verdict-encode :
    (change : Change) → IsChange change → stop_verdict (encode change) ≡ of_stop change
unfolding stop_verdict
stop_verdict-encode (exited n) h = ground arith
stop_verdict-encode (signaled n true) h = ground arith
stop_verdict-encode (signaled n false) h = ground arith
stop_verdict-encode (stopped n) h = ground arith
stop_verdict-encode continued h = refl

-- On every status word of an exit, a killing signal with or without a core dump, a stop or a
-- continuation, the four ladders of clone.c before its last one print the line that speaks of that
-- change, with its number.
pub verdicts-encode :
    (change : Change)
    → IsChange change
    → (segv_verdict (encode change)
        ≡ of_fault 11 "killed by segfault as expected\n"
            "Expect segfault but killed unexpectedly by signal %d\n"
            "Expect segfault but unexpectedly exited normally, status=%d\n"
            "Expect segfault but unexpectedly continued or stopped\n" change)
      × (fpe_verdict (encode change)
          ≡ of_fault 8 "killed by floating point error as expected\n"
              "Expect fpe but killed unexpectedly by signal %d\n"
              "Expect fpe but unexpectedly exited normally, status=%d\n"
              "Expect fpe but unexpectedly continued or stopped\n" change)
      × (term_verdict (encode change) ≡ of_term change)
      × (stop_verdict (encode change) ≡ of_stop change)
verdicts-encode change h = (
  fault_verdict-encode 11 _ _ _ _ change h,
  fault_verdict-encode 8 _ _ _ _ change h,
  term_verdict-encode change h,
  stop_verdict-encode change h,
)
