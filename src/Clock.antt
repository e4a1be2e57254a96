-- ===== src/Clock.antt =====
-- clock.c: the times of five clocks, in days, hours, minutes and seconds.
pub mod Laws
mod Tests
use generic_tests.Common.{
  ℕ, zero, suc, ◌+◌, ◌-◌, ◌*◌, ◌/◌, ◌%◌, ◌^◌, String, Bool, List, [], ◌∷◌, ltb, if◌then◌else◌,
  length,
}
use generic_tests.Common.Int.{ℤ, pos, negsuc, minus_one, eqb_ℤ}
use generic_tests.Sys.{
  nat, int, str, Call, Prog, exit, emit, ask, skip, ◌>>◌, ◌>>=◌, print, printf, perror, sys,
}

-- `(int) n`, of 32 bits.
abbrev pub to_int : ℕ → ℤ
to_int n = let m = n % 2 ^ 32 in if ltb m (2 ^ 31) then pos m else negsuc (2 ^ 32 - m - 1)

-- -n
abbrev pub negated : ℕ → ℤ
negated zero = pos 0
negated (suc n) = negsuc n

-- `n % k` in C, with the sign of n.
abbrev pub rem : ℤ → ℕ → ℤ
rem (pos n) k = pos (n % k)
rem (negsuc n) k = negated (suc n % k)

-- What is printed of a time.
pub record Shown : Type 0 where
  pub days : ℕ
  pub hours : ℕ
  pub minutes : ℕ
  pub seconds : ℤ

-- SECS_IN_DAY
abbrev pub secs_in_day : ℕ
secs_in_day = 86400

-- The cast in `(int) ts.tv_sec % 60` comes before the remainder.
unfoldable pub shown_parts : ℕ → Shown
shown_parts tv_sec = record {
  days = tv_sec / secs_in_day;
  hours = tv_sec % secs_in_day / 3600;
  minutes = tv_sec % 3600 / 60;
  seconds = rem (to_int tv_sec) 60;
}

-- The fields of the `timespec` that a call stores.
abbrev pub sec_of : List ℕ → ℕ
sec_of [] = 0
sec_of (s ∷ rest) = s

abbrev pub nsec_of : List ℕ → ℕ
nsec_of [] = 0
nsec_of (s ∷ rest) = sec_of rest

unfoldable pub display_clock : ℤ → String → Bool → Prog (Unit {0})
display_clock clock name show_res = ask (sys "clock_gettime" (int clock ∷ [])) (λ a.
    if eqb_ℤ a.result minus_one
    then emit (perror "clock_gettime") (exit (pos 1))
    else (let t = shown_parts (sec_of a.bytes) in
        emit
          (printf "%-15s: [%08lx,%08lx] %10jd.%03ld (" (
            str name
            ∷ nat (sec_of a.bytes)
            ∷ nat (nsec_of a.bytes)
            ∷ nat (sec_of a.bytes)
            ∷ nat (nsec_of a.bytes / 1000000)
            ∷ []))
          ((if ltb 0 t.days then print "%ld days + " (nat t.days ∷ []) else skip)
            >> emit (printf "%2dh %2dm %2ds" (nat t.hours ∷ nat t.minutes ∷ int t.seconds ∷ [])) (
                emit (printf ")\n" []) (
                  ask (sys "clock_getres" (int clock ∷ [])) (λ b.
                    if eqb_ℤ b.result minus_one
                    then emit (perror "clock_getres") (exit (pos 1))
                    else if show_res
                    then print "     resolution: %10jd.%09ld\n"
                        (nat (sec_of b.bytes) ∷ nat (nsec_of b.bytes) ∷ [])
                    else skip))))))

-- FD_TO_CLOCKID: `~fd << 3 | 3`, which is -8 * (fd + 1) + 3.
abbrev pub fd_to_clockid : ℤ → ℤ
fd_to_clockid (pos n) = negsuc (8 * n + 4)
fd_to_clockid (negsuc n) = pos (8 * n + 3)

unfoldable pub clock_main : List String → Prog ℤ
clock_main argv = do
  let show_res = ltb 1 (length argv)
  display_clock (pos 0) "CLOCK_REALTIME" show_res
  display_clock (pos 11) "CLOCK_TAI" show_res
  display_clock (pos 1) "CLOCK_MONOTONIC" show_res
  display_clock (pos 7) "CLOCK_BOOTTIME" show_res
  ask (sys "open" (str "/dev/ptp0" ∷ str "O_RDWR" ∷ []))
      (λ a. display_clock (fd_to_clockid a.result) "/dev/ptp0" show_res >> exit (pos 0))
