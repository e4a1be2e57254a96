-- ===== src/Fork/Serial/Laws.antt =====
-- serialfork.c: every line comes out once, one child is alive at a time, and it returns.
use generic_tests.Common.{
  ℕ, zero, suc, ◌+◌, ◌≤◌, ◌≡◌, refl, inl, inr, true, false, String, List, [], ◌∷◌, arith,
  Bool-cases, length,
}
use generic_tests.Common.Int.{ℤ, pos, minus_one, eqb_ℤ}
use generic_tests.Sys.{Answer, ◌>>◌, ret}
use generic_tests.Sys.Run.{run}
use generic_tests.Sys.Monitor.{Meets, Meets->>=, Accepts, run-Accepts}
use generic_tests.Wait.{wait_failed, plain_formats, wait_loop}
use generic_tests.Wait.Laws.{Change, IsLife, answers}
use generic_tests.Fork.{Vars, vars}
use generic_tests.Fork.Parallel.Laws.{forked}
use generic_tests.Fork.Order.{one_child, wait_loop-one_child}
use generic_tests.Fork.Serial.{parent_end, serial_loop, serial_main}

serial_loop-one_child :
    (fuel left forkno : ℕ) (v : Vars)
    → Meets one_child (λ b _. b ≡ false) false (serial_loop fuel left forkno v)
unfolding serial_loop
serial_loop-one_child fuel zero forkno v = refl
serial_loop-one_child fuel (suc left) forkno v = (
  refl,
  λ a. elim (Bool-cases (eqb_ℤ a.result minus_one)) [
    | inl e ↦ rw e (tt, (tt, tt))
    | inr e ↦ rw e (elim (Bool-cases (eqb_ℤ a.result (pos 0))) [
      | inl e2 ↦ rw e2 (omega arith)
      | inr e2 ↦ rw e2 (
        tt,
        (
          tt,
          Meets->>= one_child (λ b _. b ≡ false) (λ b _. b ≡ false)
              (λ _. serial_loop fuel left (forkno + 1) (vars 3))
              (λ b _ over. rw over (serial_loop-one_child fuel left (forkno + 1) (vars 3))) true
              (wait_loop wait_failed plain_formats a.result fuel >> parent_end v)
              (Meets->>= one_child (λ b _. b ≡ false) (λ b _. b ≡ false) (λ _. parent_end v)
                (λ b _ over. (tt, (tt, (tt, over)))) true
                (wait_loop wait_failed plain_formats a.result fuel)
                (wait_loop-one_child plain_formats a.result fuel)),
        ),
      )
    ])
  ],
)

-- serialfork.c never forks while a child of its is alive: in every run, between two forks stands a
-- wait that reports an end.
pub serial_one_child :
    (atoi : String → ℤ) (fuel : ℕ) (argv : List String) (s : List Answer)
    → Accepts one_child false (run (serial_main atoi fuel argv) s).events
unfolding serial_main
serial_one_child atoi fuel argv s =
    run-Accepts one_child (λ b _. b ≡ false) false (serial_main atoi fuel argv) s
      (
        tt,
        (
          tt,
          (
            tt,
            (
              tt,
              (
                tt,
                Meets->>= one_child (λ b _. b ≡ false) (λ b _. b ≡ false) (λ _. ret (pos 0))
                    (λ b _ over. over) false _ (serial_loop-one_child fuel _ 0 (vars 1)),
              ),
            ),
          ),
        ),
      )

-- The children of a run, each with its process id (less one) and the changes of its life.
abbrev pub history : List (ℕ × List Change) → List Answer → List Answer
history [] rest = rest
history ((p, cs) ∷ lives) rest = forked p ∷ answers (pos (suc p)) cs (history lives rest)

abbrev pub AreLives : ℕ → List (ℕ × List Change) → Type 0
AreLives fuel [] = Unit
AreLives fuel ((p, cs) ∷ lives) = (IsLife cs × (length cs ≤ fuel)) × AreLives fuel lives

-- The variables after the loop.
abbrev pub vars_after : Vars → List (ℕ × List Change) → Vars
vars_after v [] = v
vars_after v (life ∷ lives) = vars 3
