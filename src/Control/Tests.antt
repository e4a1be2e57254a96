-- ===== src/Control/Tests.antt =====
-- Runs of controlthreads.c.
use generic_tests.Common.{ℕ, ◌≡◌, refl, List, [], ◌∷◌, ◌++◌, arith}
use generic_tests.Common.Int.{pos}
use generic_tests.Sys.{Answer, Call}
use generic_tests.Sys.Run.{run, done}
use generic_tests.Sys.Tree.{Env, threads}
use generic_tests.Socket.Laws.{bytes_read}
use generic_tests.Control.{bingo}
use generic_tests.Control.Threads.{bingo_loop, short_dev, bad_input}
use generic_tests.Control.Main.{control_main}
use generic_tests.Control.Laws.{bingo_loop_lem, short_dev-Passes, bad_input-Passes}
use generic_tests.Control.Processes.{IsFriendly, control_creates_twice}

-- Ten bytes that start with "bingo", and ten that do not.
abbrev good : Answer
good = bytes_read (bingo ++ b'a' ∷ b'b' ∷ b'c' ∷ b'd' ∷ b'e' ∷ [])

abbrev other : Answer
other = bytes_read (b'l' ∷ b'o' ∷ b't' ∷ b't' ∷ b'o' ∷ b'a' ∷ b'b' ∷ b'c' ∷ b'd' ∷ b'e' ∷ [])

abbrev zeros : List ℕ
zeros = 0 ∷ 0 ∷ 0 ∷ 0 ∷ 0 ∷ 0 ∷ 0 ∷ 0 ∷ 0 ∷ 0 ∷ 0 ∷ []

bingo_loop_example :
    (run
      (bingo_loop short_dev bad_input (pos 3) 5 zeros)
      (other ∷ bytes_read [] ∷ good ∷ [])).outcome
    ≡ done b'e' []
bingo_loop_example =
    bingo_loop_lem short_dev bad_input (pos 3) 5 zeros (other ∷ bytes_read [] ∷ []) good []
      short_dev-Passes bad_input-Passes (refl, (refl, tt)) refl refl (omega arith)

-- Every call gives 0 but `fork`, `read` and the loops over the threads.
abbrev friendly : Env
friendly Call.fork = record { result = pos 7; status = 0; bytes = [] }
friendly (Call.read fd n) = record { result = pos 1; status = 0; bytes = b'x' ∷ [] }
friendly c = record { result = pos 0; status = 0; bytes = 0 ∷ [] }

friendly-IsFriendly : IsFriendly friendly 6 0 []
friendly-IsFriendly = record {
  forks = refl;
  reads = λ fd. refl;
  pipe = refl;
  small = omega arith;
  alive = λ p. refl;
  status = λ p. refl;
  creates = λ i. refl;
  joins = λ i. refl;
}

control_creates_twice_example : threads friendly (control_main 3 (pos 0)) ≡ 14
control_creates_twice_example = control_creates_twice friendly 6 0 [] friendly-IsFriendly 2 (pos 0)
