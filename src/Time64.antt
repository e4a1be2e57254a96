-- ===== src/Time64.antt =====
-- timeclock64.c: the calls whose names end in time64, each tried where it is defined.
pub mod Laws
use generic_tests.Common.{ℕ, ◌+◌, String, List, [], ◌∷◌, if◌then◌else◌}
use generic_tests.Common.Int.{ℤ, pos, minus_one, is_neg, eqb_ℤ}
use generic_tests.Sys.{
  Answer, nat, int, str, text, Call, Prog, ret, ask, say, skip, ◌>>=◌, ◌>>◌, print, sys, close,
}
use generic_tests.Call64.{field}

-- Whether `SYS_name` is defined, `__NR_name` only, or neither.
pub data Presence : Type 0 where
  present : Presence
  number_only : Presence
  absent : Presence

pub record Build64 : Type 0 where
  pub clock_gettime : Presence
  pub clock_settime : Presence
  pub clock_getres : Presence
  pub clock_nanosleep : Presence
  pub clock_adjtime : Presence
  pub timerfd_settime : Presence
  pub timerfd_gettime : Presence
  pub timer_settime : Presence
  pub timer_gettime : Presence
  pub sizeof_time_t : ℕ
  pub sizeof_long : ℕ

-- `struct timespec64`
pub record Timespec : Type 0 where
  pub tv_sec : ℕ
  pub tv_nsec : ℕ

-- What a call stores, from the i-th number on; a call that stores nothing leaves `old`.
abbrev pub stored_time : ℕ → Timespec → List ℕ → Timespec
stored_time i old [] = old
stored_time i old (n ∷ ns) = record { tv_sec = field i (n ∷ ns); tv_nsec = field (1 + i) (n ∷ ns) }

-- `strerror(errno)`, with the number.
abbrev pub with_errno : (ℤ → List ℕ → Prog (Unit {0})) → Prog (Unit {0})
with_errno next =
    ask (sys "errno" [])
      (λ e. ask (sys "strerror" (int e.result ∷ [])) (λ m. next e.result m.bytes))

unfoldable pub perr : String → ℤ → Prog (Unit {0})
perr what r =
    if eqb_ℤ r minus_one
    then with_errno (λ e message.
      print "%s -> retval=-1 errno=%d (%s)\n" (str what ∷ int e ∷ text message ∷ []))
    else print "%s -> retval=%ld\n" (str what ∷ int r ∷ [])

-- A call that is tried, with its label and its name, the line where it is not there, and what is
-- said of a success. The value is that of the variable behind the pointer.
abbrev pub attempt :
    Presence
    → Call
    → String
    → String
    → (Presence → String)
    → ℕ
    → Timespec
    → (Timespec → Prog (Unit {0}))
    → Prog Timespec
attempt present c label name missing i old shown = ask c (λ a.
    print label []
    >> (perr name a.result
        >> ((if eqb_ℤ a.result (pos 0) then shown (stored_time i old a.bytes) else skip)
            >> ret (stored_time i old a.bytes))))
attempt p c label name missing i old shown = print (missing p) [] >> ret old

-- The two lines for a call that is not there.
abbrev pub unless : String → String → Presence → String
unless no_macro neither absent = neither
unless no_macro neither p = no_macro

abbrev pub zero_time : Timespec
zero_time = record { tv_sec = 0; tv_nsec = 0 }

abbrev pub say_nothing : Timespec → Prog (Unit {0})
say_nothing t = skip

abbrev pub says : String → Timespec → Prog (Unit {0})
says format t = print format (nat t.tv_sec ∷ nat t.tv_nsec ∷ [])

-- Steps 1 to 5.
unfoldable pub gettime_step : Presence → Prog Timespec
gettime_step p =
    attempt p (sys "clock_gettime64" (str "CLOCK_REALTIME" ∷ [])) "clock_gettime64: "
      "clock_gettime64"
      (unless "clock_gettime64 macro not present (skipping)\n"
        "clock_gettime64: no SYS_clock_gettime64/__NR_clock_gettime64 on this build\n")
      0 zero_time (says "  -> got sec=%lld nsec=%ld\n")

abbrev pub settime_call : Timespec → Call
settime_call ts = sys "clock_settime64" (str "CLOCK_REALTIME" ∷ nat ts.tv_sec ∷ nat ts.tv_nsec ∷ [])

unfoldable pub settime_step : Presence → Timespec → Prog Timespec
settime_step p ts =
    attempt p (settime_call ts) "clock_settime64: " "clock_settime64"
      (unless "clock_settime64 macro not present (skipping)\n"
        "clock_settime64: no SYS_clock_settime64/__NR_clock_settime64 on this build\n")
      0 ts say_nothing

unfoldable pub getres_step : Presence → Prog Timespec
getres_step p =
    attempt p (sys "clock_getres_time64" (str "CLOCK_REALTIME" ∷ [])) "clock_getres_time64: "
      "clock_getres_time64"
      (unless "clock_getres_time64 macro not present (skipping)\n"
        "clock_getres_time64: no SYS_clock_getres_time64/__NR_clock_getres_time64 on this build\n")
      0 zero_time (says "  -> res sec=%lld nsec=%ld\n")

unfoldable pub nanosleep_step : Presence → Prog Timespec
nanosleep_step p =
    attempt p (sys "clock_nanosleep_time64" (str "CLOCK_REALTIME" ∷ nat 0 ∷ nat 1 ∷ nat 0 ∷ []))
      "clock_nanosleep_time64 (1s): " "clock_nanosleep_time64"
      (unless "clock_nanosleep_time64 macro not present (skipping)\n"
        "clock_nanosleep_time64: no SYS_clock_nanosleep_time64/__NR_clock_nanosleep_time64 on this build\n")
      0 zero_time say_nothing

unfoldable pub adjtime_step : Presence → Prog Timespec
adjtime_step p =
    attempt p (sys "clock_adjtime64" (str "CLOCK_REALTIME" ∷ str "NULL" ∷ [])) "clock_adjtime64: "
      "clock_adjtime64"
      (unless "clock_adjtime64 macro not present (skipping)\n"
        "clock_adjtime64: no SYS_clock_adjtime64/__NR_clock_adjtime64 on this build\n")
      0 zero_time say_nothing

-- The timer behind a file; `it_value` is the third and fourth number stored.
unfoldable pub timerfd_step : Presence → Presence → Prog (Unit {0})
timerfd_step set get = ask (sys "timerfd_create" (str "CLOCK_REALTIME" ∷ nat 0 ∷ [])) (λ t.
    if is_neg t.result
    then with_errno (λ e message.
      print "timerfd_create failed: %s (skipping timerfd_*64 tests)\n" (text message ∷ []))
    else do
      print "timerfd created fd=%d\n" (int t.result ∷ [])
      was ←
          attempt set (sys "timerfd_settime64" (int t.result ∷ nat 0 ∷ nat 2 ∷ nat 0 ∷ []))
            "timerfd_settime64: " "timerfd_settime64"
            (unless "timerfd_settime64 macro not present (skipping)\n"
              "timerfd_settime64: no SYS_timerfd_settime64/__NR_timerfd_settime64 on this build\n")
            0 zero_time say_nothing
      got ←
          attempt get (sys "timerfd_gettime64" (int t.result ∷ [])) "timerfd_gettime64: "
            "timerfd_gettime64"
            (unless "timerfd_gettime64 macro not present (skipping)\n"
              "timerfd_gettime64: no SYS_timerfd_gettime64/__NR_timerfd_gettime64 on this build\n")
            2 zero_time (says "  -> next expiration in %lld sec %ld nsec\n")
      say (close t.result))

-- What is done with a POSIX timer.
abbrev pub use_timer : ℕ → Presence → Presence → Prog (Unit {0})
use_timer tid set get = do
  print "posix timer created (timer_t=%p)\n" (nat tid ∷ [])
  was ←
      attempt set (sys "timer_settime64" (nat tid ∷ nat 0 ∷ nat 5 ∷ nat 0 ∷ [])) "timer_settime64: "
        "timer_settime64"
        (unless "timer_settime64 macro not present (skipping)\n"
          "timer_settime64: no SYS_timer_settime64/__NR_timer_settime64 on this build\n")
        0 zero_time say_nothing
  got ←
      attempt get (sys "timer_gettime64" (nat tid ∷ [])) "timer_gettime64: " "timer_gettime64"
        (unless "timer_gettime64 macro not present (skipping)\n"
          "timer_gettime64: no SYS_timer_gettime64/__NR_timer_gettime64 on this build\n")
        2 zero_time (says "  -> timer next in %lld sec %ld nsec\n")
  say (sys "timer_delete" (nat tid ∷ []))

-- `timer_create` stores the number of the timer.
unfoldable pub timer_step : Presence → Presence → Prog (Unit {0})
timer_step set get = ask (sys "timer_create" (str "CLOCK_REALTIME" ∷ [])) (λ t.
    if eqb_ℤ t.result (pos 0)
    then use_timer (field 0 t.bytes) set get
    else with_errno (λ e message.
      print "timer_create failed: %s (skipping timer_gettime64/timer_settime64)\n"
        (text message ∷ [])))

unfoldable pub time64_main : Build64 → Prog ℤ
time64_main b = do
  print "time64-syscall test program\n" []
  print "sizeof(time_t)=%zu, sizeof(long)=%zu\n" (nat b.sizeof_time_t ∷ nat b.sizeof_long ∷ [])
  ts ← gettime_step b.clock_gettime
  setts ← settime_step b.clock_settime ts
  res ← getres_step b.clock_getres
  rem ← nanosleep_step b.clock_nanosleep
  timex ← adjtime_step b.clock_adjtime
  timerfd_step b.timerfd_settime b.timerfd_gettime
  timer_step b.timer_settime b.timer_gettime
  print "done.\n" []
  ret (pos 0)
