-- ===== src/Fork/Tests.antt =====
-- Runs of the programs that fork.
use generic_tests.Common.{
  if◌then◌else◌, ◌+◌, ◌==◌, ◌||◌, length, ◌≡◌, ◌^◌, refl, String, List, [], ◌∷◌, ◌++◌, false, arith,
}
use generic_tests.Common.Int.{ℤ, pos, minus_one, eqb_ℤ}
use generic_tests.Sys.{execve, Answer, fflush, printf, sys, nat, int, str}
use generic_tests.Sys.Run.{run, did, done}
use generic_tests.Sys.Monitor.{Accepts}
use generic_tests.Sys.Tree.{Env, processes, printed}
use generic_tests.Sys.Buffer.{buffered, written}
use generic_tests.Fork.Exec.{forkexec_main}
use generic_tests.Fork.Exec.Laws.{forkexec_written}
use generic_tests.Wait.{plain_formats}
use generic_tests.Wait.Laws.{exited, answers, answer, story}
use generic_tests.Fork.{vars, show, arg}
use generic_tests.Fork.Order.{one_child}
use generic_tests.Fork.Serial.{serial_main}
use generic_tests.Fork.Serial.Laws.{serial_one_child}
use generic_tests.Fork.Parallel.{parallel_main}
use generic_tests.Fork.Parallel.Laws.{forks, forked, fork_events, parallel_waits_for_last}
use generic_tests.Fork.Multi.{multi_main}
use generic_tests.Fork.Multi.Laws.{IsFriendly, multi_doubles, multi_starts}

-- Every call gives 7, and status 0: an exit with 0.
abbrev always : Env
always c = record { result = pos 7; status = 0; bytes = [] }

abbrev two : String → ℤ
two s = pos 2

abbrev argv : List String
argv = "fork" ∷ "2" ∷ []

-- Two rounds of `serialfork 2`.
abbrev rounds : List Answer
rounds = forked 6 ∷ answer (pos 7) (exited 0) ∷ forked 7 ∷ answer (pos 8) (exited 1) ∷ []

serial_one_child_example : Accepts one_child false (run (serial_main two 9 argv) rounds).events
serial_one_child_example = serial_one_child two 9 argv rounds

parallel_waits_for_last_example :
    run (parallel_main two (pos 0) 9 argv) (forks (6 ∷ 7 ∷ []) (answers (pos 8) (exited 1 ∷ []) []))
    ≡ record {
      events =
          did (printf "%s will fork %d times\n" (str "fork" ∷ int (pos 2) ∷ []))
          ∷ did fflush
          ∷ did (sys "malloc" (nat 32 ∷ []))
          ∷ did
              (printf "Initial local, static, global, heap = %02x %02x %02x %02x\n" (show (vars 1)))
          ∷ did fflush
          ∷ (fork_events (6 ∷ 7 ∷ []) []
              ++ (story plain_formats (pos 8) (pos 8) (exited 1 ∷ [])
                  ++ did (
                      printf
                        "parent after all children exitted local, static, global = %02x %02x %02x %02x\n"
                        (show (vars 1)))
                    ∷ did (
                        printf "parent changed local, static, global = %02x %02x %02x %02x\n"
                          (show (vars 3)))
                    ∷ did fflush
                    ∷ []));
      outcome = done (pos 0) [];
    }
parallel_waits_for_last_example =
    parallel_waits_for_last two (pos 0) 9 argv (6 ∷ 7 ∷ []) (pos 8) (exited 1 ∷ []) [] refl refl
      (omega arith, refl) (omega arith)

always-IsFriendly : IsFriendly always 6 0
always-IsFriendly = record {
  forks = refl;
  small = omega arith;
  alive = λ p. refl;
  status = λ p. refl;
}

multi_doubles_example : processes always (multi_main two 9 argv) ≡ 2 ^ 2
multi_doubles_example = multi_doubles always 6 0 always-IsFriendly two 8 2 argv "2" refl refl

multi_starts_example : processes always (multi_main two 9 ("fork" ∷ "2" ∷ "ls" ∷ [])) ≡ 2 + 1
multi_starts_example =
    multi_starts always 6 0 always-IsFriendly two 8 2 ("fork" ∷ "2" ∷ "ls" ∷ []) "2" "ls" [] refl
      refl refl

forkexec_written_example :
    written always (buffered 0) (forkexec_main 9 argv)
    ≡ printed always (forkexec_main 9 argv)
      + (if (length argv == 1) || eqb_ℤ (always (execve (arg argv 1))).result minus_one
          then 1
          else 0)
forkexec_written_example = forkexec_written always 6 9 argv refl
