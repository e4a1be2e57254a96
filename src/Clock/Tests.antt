-- ===== src/Clock/Tests.antt =====
-- Times that clock.c shows.
use generic_tests.Common.{◌+◌, ◌*◌, ◌<◌, ◌≡◌, arith}
use generic_tests.Common.Int.{pos, pos_part}
use generic_tests.Clock.{shown_parts}
use generic_tests.Clock.Laws.{shown_parts_lem, shown_seconds_wrap}

shown_parts_example :
    ((shown_parts 1000000).seconds ≡ pos 40)
    × ((((shown_parts 1000000).days * 24 + (shown_parts 1000000).hours) * 60
              + (shown_parts 1000000).minutes)
            * 60
          + 40
        ≡ 1000000)
    × ((shown_parts 1000000).hours < 24)
    × ((shown_parts 1000000).minutes < 60)
shown_parts_example = shown_parts_lem 1000000 (omega arith)

shown_seconds_wrap_example : pos_part (shown_parts 2147483649).seconds ≡ 0
shown_seconds_wrap_example = shown_seconds_wrap 2147483649 (omega arith) (omega arith)
