-- ===== src/Sys/Run.antt =====
-- One process against the answers of its environment, in the order in which they come.
use generic_tests.Common.{ℕ, List, [], ◌∷◌, ◌++◌, ◌≡◌, refl, ap}
use generic_tests.Common.Int.{ℤ}
use generic_tests.Sys.Calls.{Call, Answer}
use generic_tests.Sys.Programs.{Prog, ret, exit, replaced, killed, spin, emit, ask, ◌>>=◌}

pub data Event : Type 0 where
  did : Call → Event  -- result ignored
  got : Call → Answer → Event

-- How a process stands when no more answers come.
pub data Outcome {ℓ} (A : Type ℓ) : Type ℓ where
  done : A → List Answer → Outcome A  -- with the answers that are left
  exited : ℤ → Outcome A
  execed : Outcome A
  faulted : ℕ → Outcome A
  waiting : Call → Outcome A  -- in a call that has not returned
  spun : Outcome A

pub record Trace {ℓ} (A : Type ℓ) : Type ℓ where
  pub events : List Event
  pub outcome : Outcome A

abbrev pub add {ℓ} : {A : Type ℓ} → Event → Trace A → Trace A
add e t = record { events = e ∷ t.events; outcome = t.outcome }

unfoldable pub run {ℓ} : {A : Type ℓ} → Prog A → List Answer → Trace A
run (ret a) s = record { events = []; outcome = done a s }
run (exit n) s = record { events = []; outcome = exited n }
run replaced s = record { events = []; outcome = execed }
run (killed n) s = record { events = []; outcome = faulted n }
run spin s = record { events = []; outcome = spun }
run (emit c p) s = add (did c) (run p s)
run (ask c k) [] = record { events = []; outcome = waiting c }
run (ask c k) (a ∷ s) = add (got c a) (run (k a) s)

-- What follows a run: the next program takes over where the first has returned.
abbrev pub resume {ℓ κ} : {A : Type ℓ} {B : Type κ} → Outcome A → (A → Prog B) → Trace B
resume (done a s) f = run (f a) s
resume (exited n) f = record { events = []; outcome = exited n }
resume execed f = record { events = []; outcome = execed }
resume (faulted n) f = record { events = []; outcome = faulted n }
resume (waiting c) f = record { events = []; outcome = waiting c }
resume spun f = record { events = []; outcome = spun }

abbrev pub chain {ℓ κ} : {A : Type ℓ} {B : Type κ} → Trace A → (A → Prog B) → Trace B
chain t f = record {
  events = t.events ++ (resume t.outcome f).events;
  outcome = (resume t.outcome f).outcome;
}

pub run->>= {ℓ κ} :
    {A : Type ℓ} {B : Type κ} (p : Prog A) (f : A → Prog B) (s : List Answer)
    → run (p >>= f) s ≡ chain (run p s) f
unfolding run
run->>= (ret a) f s = refl
run->>= (exit n) f s = refl
run->>= replaced f s = refl
run->>= (killed n) f s = refl
run->>= spin f s = refl
run->>= (emit c p) f s = ap (add (did c)) (run->>= p f s)
run->>= (ask c k) f [] = refl
run->>= (ask c k) f (a ∷ s) = ap (add (got c a)) (run->>= (k a) f s)
