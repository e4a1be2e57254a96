-- ===== src/Time64/Laws.antt =====
-- The time to which timeclock64.c sets the clock.
use generic_tests.Common.{ℕ, ◌≡◌, refl, List, [], ◌∷◌}
use generic_tests.Common.Int.{pos, minus_one}
use generic_tests.Sys.{Answer, Arg, Call, int, nat, str, text, sys, printf, ◌>>=◌}
use generic_tests.Sys.Run.{Event, got, did, done, run}
use generic_tests.Time64.{present, gettime_step, settime_step, settime_call, perr, zero_time}

abbrev pub success : List ℕ → Answer
success bytes = record { result = pos 0; status = 0; bytes = bytes }

abbrev pub unread : Answer
unread = record { result = minus_one; status = 0; bytes = [] }

abbrev pub gettime_call : Call
gettime_call = sys "clock_gettime64" (str "CLOCK_REALTIME" ∷ [])

-- The line on a success.
abbrev pub went_well : Arg → Event
went_well name = did (printf "%s -> retval=%ld\n" (name ∷ int (pos 0) ∷ []))

-- Where the two calls are defined and the clock can be set: if the time can be read, the clock is set
-- to the time just read; if it cannot, the clock is set to 0, the beginning of 1970.
pub clock_is_set :
    (sec nsec : ℕ) (errno message : Answer)
    → (run
          (gettime_step present >>= settime_step present)
          (success (sec ∷ nsec ∷ []) ∷ success [] ∷ [])
        ≡ record {
          events =
              got gettime_call (success (sec ∷ nsec ∷ []))
              ∷ did (printf "clock_gettime64: " [])
              ∷ went_well (str "clock_gettime64")
              ∷ did (printf "  -> got sec=%lld nsec=%ld\n" (nat sec ∷ nat nsec ∷ []))
              ∷ got (settime_call (record { tv_sec = sec; tv_nsec = nsec })) (success [])
              ∷ did (printf "clock_settime64: " [])
              ∷ went_well (str "clock_settime64")
              ∷ [];
          outcome = done (record { tv_sec = sec; tv_nsec = nsec }) [];
        })
      × (run
            (gettime_step present >>= settime_step present)
            (unread ∷ errno ∷ message ∷ success [] ∷ [])
          ≡ record {
            events =
                got gettime_call unread
                ∷ did (printf "clock_gettime64: " [])
                ∷ got (sys "errno" []) errno
                ∷ got (sys "strerror" (int errno.result ∷ [])) message
                ∷ did (
                    printf "%s -> retval=-1 errno=%d (%s)\n"
                      (str "clock_gettime64" ∷ int errno.result ∷ text message.bytes ∷ []))
                ∷ got (settime_call zero_time) (success [])
                ∷ did (printf "clock_settime64: " [])
                ∷ went_well (str "clock_settime64")
                ∷ [];
            outcome = done zero_time [];
          })
unfolding gettime_step settime_step perr run
clock_is_set sec nsec errno message = (refl, refl)
