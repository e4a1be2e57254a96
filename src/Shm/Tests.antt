-- ===== src/Shm/Tests.antt =====
-- Runs of `fill_buffer`.
use generic_tests.Common.{◌≡◌, ◌+◌, arith, length, replicate}
use generic_tests.Threads.{text_of}
use generic_tests.Shm.{fill_buffer}
use generic_tests.Shm.Laws.{ch_at, ch_at_lem, fill_buffer_lem}

ch_at_example : ch_at 26 ≡ 91
ch_at_example = ch_at_lem 25

fill_buffer_example :
    ((fill_buffer (ch_at 1) 4).count + 1 ≡ 4)
    × (text_of (fill_buffer (ch_at 1) 4).buffer ≡ replicate 3 (ch_at 1))
    × (length (fill_buffer (ch_at 1) 4).buffer ≡ 4)
fill_buffer_example = fill_buffer_lem 1 4 (omega arith)
