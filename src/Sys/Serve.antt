-- ===== src/Sys/Serve.antt =====
-- One process against an environment that keeps a state, and answers by it.
use generic_tests.Common.{Bool, true, false, [], ◌≡◌, refl}
use generic_tests.Sys.Calls.{Call, Answer}
use generic_tests.Sys.Programs.{Prog, ret, exit, replaced, killed, spin, emit, ask, ◌>>=◌}
use generic_tests.Sys.Run.{Outcome, done, exited, execed, faulted, waiting, spun}

-- What a call answers in a state, and the state behind it.
abbrev pub Server : Type 0 → Type 0
Server S = Call → S → Answer × S

unfoldable pub drive {ℓ} : {S : Type 0} {A : Type ℓ} → Server S → Prog A → S → Outcome A × S
drive serve (ret a) s = (done a [], s)
drive serve (exit n) s = (exited n, s)
drive serve replaced s = (execed, s)
drive serve (killed n) s = (faulted n, s)
drive serve spin s = (spun, s)
drive serve (emit c p) s = drive serve p (serve c s).1
drive serve (ask c k) s = drive serve (k (serve c s).0) (serve c s).1

-- The same where some calls block, by the state in which they are made: the process stays in the first
-- of these.
unfoldable pub drive_until {ℓ} :
    {S : Type 0} {A : Type ℓ} → (Call → S → Bool) → Server S → Prog A → S → Outcome A × S
drive_until blocks serve (ret a) s = (done a [], s)
drive_until blocks serve (exit n) s = (exited n, s)
drive_until blocks serve replaced s = (execed, s)
drive_until blocks serve (killed n) s = (faulted n, s)
drive_until blocks serve spin s = (spun, s)
drive_until blocks serve (emit c p) s = elim (blocks c s) [
  | true ↦ (waiting c, s)
  | false ↦ drive_until blocks serve p (serve c s).1
]
drive_until blocks serve (ask c k) s = elim (blocks c s) [
  | true ↦ (waiting c, s)
  | false ↦ drive_until blocks serve (k (serve c s).0) (serve c s).1
]

module _ {S : Type 0} (serve : Server S) where
  -- The program returns, and `Q` holds of the value and the state then.
  abbrev pub Achieves {ℓ} : {A : Type ℓ} → (A → S → Type 0) → Prog A → S → Type 0
  Achieves Q (ret a) s = Q a s
  Achieves Q (exit n) s = ⊥
  Achieves Q replaced s = ⊥
  Achieves Q (killed n) s = ⊥
  Achieves Q spin s = ⊥
  Achieves Q (emit c p) s = Achieves Q p (serve c s).1
  Achieves Q (ask c k) s = Achieves Q (k (serve c s).0) (serve c s).1

  pub Achieves->>= {ℓ κ} :
      {A : Type ℓ} {B : Type κ} (Q : A → S → Type 0) (R : B → S → Type 0) (f : A → Prog B)
      → ((a : A) (s : S) → Q a s → Achieves R (f a) s)
      → (p : Prog A) (s : S) → Achieves Q p s
      → Achieves R (p >>= f) s
  Achieves->>= Q R f next (ret a) s h = next a s h
  Achieves->>= Q R f next (exit n) s h = absurd h
  Achieves->>= Q R f next replaced s h = absurd h
  Achieves->>= Q R f next (killed n) s h = absurd h
  Achieves->>= Q R f next spin s h = absurd h
  Achieves->>= Q R f next (emit c p) s h = Achieves->>= Q R f next p (serve c s).1 h
  Achieves->>= Q R f next (ask c k) s h = Achieves->>= Q R f next (k (serve c s).0) (serve c s).1 h

  -- Read off the run.
  pub Achieves-drive {ℓ} :
      {A : Type ℓ} (Q : A → S → Type 0) (p : Prog A) (s : S)
      → Achieves Q p s
      → (a : A) × (((drive serve p s).0 ≡ done a []) × Q a (drive serve p s).1)
  unfolding drive
  Achieves-drive Q (ret a) s h = (a, (refl, h))
  Achieves-drive Q (exit n) s h = absurd h
  Achieves-drive Q replaced s h = absurd h
  Achieves-drive Q (killed n) s h = absurd h
  Achieves-drive Q spin s h = absurd h
  Achieves-drive Q (emit c p) s h = Achieves-drive Q p (serve c s).1 h
  Achieves-drive Q (ask c k) s h = Achieves-drive Q (k (serve c s).0) (serve c s).1 h
