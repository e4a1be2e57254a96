-- ===== src/Clock/Laws.antt =====
-- What clock.c shows of a time, before and after 2^31 seconds.
use generic_tests.Common.{ℕ, zero, suc, ◌+◌, ◌-◌, ◌*◌, ◌%◌, ◌<◌, ◌≤◌, ◌≡◌, refl, arith, false, ltb}
use generic_tests.Common.Int.{pos, pos_part}
use generic_tests.Clock.{to_int, rem, negated, shown_parts}

pub to_int-small : (n : ℕ) → n < 2147483648 → to_int n ≡ pos n
to_int-small n lt = ground arith

to_int-large : (n : ℕ) → 2147483648 ≤ n → n < 4294967296 → pos_part (rem (to_int n) 60) ≡ 0
to_int-large n ge lt =
    rw (above n ge lt) (negated_at_most (suc (4294967296 - n % 4294967296 - 1) % 60))
  where
    above : (m : ℕ) → 2147483648 ≤ m → m < 4294967296 → ltb (m % 4294967296) 2147483648 ≡ false
    above m le small = ground arith

    negated_at_most : (m : ℕ) → pos_part (negated m) ≡ 0
    negated_at_most zero = refl
    negated_at_most (suc m) = refl

-- Up to 2^31 seconds, the days, hours, minutes and seconds that clock.c prints are those of the
-- time: each is in its range, and they add up to it.
pub shown_parts_lem :
    (t : ℕ)
    → t < 2147483648
    → ((shown_parts t).seconds ≡ pos (t % 60))
      × (((((shown_parts t).days * 24 + (shown_parts t).hours) * 60 + (shown_parts t).minutes) * 60
            + t % 60)
          ≡ t)
      × ((shown_parts t).hours < 24)
      × ((shown_parts t).minutes < 60)
unfolding shown_parts
shown_parts_lem t lt = (rw (to_int-small t lt), omega arith, omega arith, omega arith)

-- From 2^31 to 2^32 seconds, in the years 2038 to 2106, clock.c never prints a positive number of
-- seconds: the time is cut to an `int` before the remainder is taken.
pub shown_seconds_wrap :
    (t : ℕ) → 2147483648 ≤ t → t < 4294967296 → pos_part (shown_parts t).seconds ≡ 0
unfolding shown_parts
shown_seconds_wrap t ge lt = to_int-large t ge lt
