-- ===== src/Namespace/Tests.antt =====
-- A run of `main`, and an id.
use generic_tests.Common.{◌∷◌, [], List}
use generic_tests.Common.Int.{ℤ, pos}
use generic_tests.Sys.{Answer}
use generic_tests.Sys.Monitor.{Accepts}
use generic_tests.Sys.Run.{run}
use generic_tests.Namespace.{mkuidns_main}
use generic_tests.Namespace.Order.{sequence, start, mkuidns_order}

abbrev returns : ℤ → Answer
returns r = record { result = r; status = 0; bytes = [] }

-- The pair of sockets, the stack, the child, the three files with the ids, and the end of the child.
abbrev mapped : List Answer
mapped =
    record { result = pos 0; status = 0; bytes = 3 ∷ 4 ∷ [] }
    ∷ returns (pos 4096)
    ∷ returns (pos 77)
    ∷ returns (pos 5)
    ∷ returns (pos 1000)
    ∷ returns (pos 5)
    ∷ returns (pos 5)
    ∷ returns (pos 100)
    ∷ returns (pos 77)
    ∷ []

mkuidns_order_example : Accepts sequence start (run mkuidns_main mapped).events
mkuidns_order_example = mkuidns_order mapped
