-- ===== src/Vectors/Tests.antt =====
-- Two bytes read.
use generic_tests.Common.{◌≡◌, refl, List, ℕ, [], ◌∷◌, arith}
use generic_tests.Common.Int.{pos}
use generic_tests.Sys.Run.{run}
use generic_tests.Vectors.{read_back, recv_back, preadv_back}
use generic_tests.Vectors.Laws.{reading, readv_trace, recvmsg_trace, preadv_trace, demos_show}

abbrev hi : List ℕ
hi = b'h' ∷ b'i' ∷ []

demos_show_example :
    (run (read_back (pos 3) (pos 4) []) (reading hi ∷ []) ≡ readv_trace (pos 3) (pos 4) hi)
    × (run (recv_back (pos 3) (pos 4) []) (reading hi ∷ []) ≡ recvmsg_trace (pos 3) (pos 4) hi)
    × (run (preadv_back (pos 3)) (reading hi ∷ []) ≡ preadv_trace (pos 3) hi)
demos_show_example =
    demos_show (pos 3) (pos 4) (pos 3) hi hi [] (omega arith) (refl, (refl, tt)) (omega arith)
      (refl, (refl, tt))
