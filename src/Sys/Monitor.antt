-- ===== src/Sys/Monitor.antt =====
-- Rules on the order of the calls of a program, as an automaton that watches them.
use generic_tests.Common.{List, [], ◌∷◌}
use generic_tests.Sys.Calls.{Call, Answer}
use generic_tests.Sys.Programs.{Prog, ret, exit, replaced, killed, spin, emit, ask, ◌>>=◌}
use generic_tests.Sys.Run.{Event, did, got, run}

pub record Monitor : Type 1 where
  pub State : Type 0
  pub guard : Call → State → Type 0  -- what must hold where the call is made
  pub after_emit : Call → State → State
  pub after_ask : Call → Answer → State → State
  pub closing : State → Type 0  -- what must hold where the process is replaced or faults

-- On every path, whatever is answered, the calls keep to the rules; where the program returns, `Q`
-- holds of the state and the value.
abbrev pub Meets {ℓ} :
    {A : Type ℓ} (M : Monitor) → (M.State → A → Type 0) → M.State → Prog A → Type 0
Meets M Q m (ret a) = Q m a
Meets M Q m (exit n) = Unit
Meets M Q m replaced = M.closing m
Meets M Q m (killed n) = M.closing m
Meets M Q m spin = Unit
Meets M Q m (emit c p) = M.guard c m × Meets M Q (M.after_emit c m) p
Meets M Q m (ask c k) = M.guard c m × ((a : Answer) → Meets M Q (M.after_ask c a m) (k a))

-- The rule for a sequence.
pub Meets->>= {ℓ κ} :
    {A : Type ℓ} {B : Type κ} (M : Monitor) (Q : M.State → A → Type 0) (R : M.State → B → Type 0)
    (f : A → Prog B)
    → ((m : M.State) (a : A) → Q m a → Meets M R m (f a))
    → (m : M.State) (p : Prog A) → Meets M Q m p
    → Meets M R m (p >>= f)
Meets->>= M Q R f next m (ret a) h = next m a h
Meets->>= M Q R f next m (exit n) h = tt
Meets->>= M Q R f next m replaced h = h
Meets->>= M Q R f next m (killed n) h = h
Meets->>= M Q R f next m spin h = tt
Meets->>= M Q R f next m (emit c p) h = (h.0, Meets->>= M Q R f next (M.after_emit c m) p h.1)
Meets->>= M Q R f next m (ask c k) h =
    (h.0, λ a. Meets->>= M Q R f next (M.after_ask c a m) (k a) (h.1 a))

-- A trace that keeps to the rules.
abbrev pub Accepts : (M : Monitor) → M.State → List Event → Type 0
Accepts M m [] = Unit
Accepts M m (did c ∷ es) = M.guard c m × Accepts M (M.after_emit c m) es
Accepts M m (got c a ∷ es) = M.guard c m × Accepts M (M.after_ask c a m) es

-- Every run of a program that meets the rules keeps to them.
pub run-Accepts {ℓ} :
    {A : Type ℓ} (M : Monitor) (Q : M.State → A → Type 0) (m : M.State) (p : Prog A)
    (s : List Answer)
    → Meets M Q m p
    → Accepts M m (run p s).events
unfolding run
run-Accepts M Q m (ret a) s h = tt
run-Accepts M Q m (exit n) s h = tt
run-Accepts M Q m replaced s h = tt
run-Accepts M Q m (killed n) s h = tt
run-Accepts M Q m spin s h = tt
run-Accepts M Q m (emit c p) s h = (h.0, run-Accepts M Q (M.after_emit c m) p s h.1)
run-Accepts M Q m (ask c k) [] h = tt
run-Accepts M Q m (ask c k) (a ∷ s) h = (h.0, run-Accepts M Q (M.after_ask c a m) (k a) s (h.1 a))
