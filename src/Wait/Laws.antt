-- ===== src/Wait/Laws.antt =====
-- What the ladder and the loop do with the words that Linux hands out.
use generic_tests.Common.{
  ℕ, zero, suc, ◌+◌, ◌*◌, ◌≤◌, ◌<◌, ◌≡◌, refl, inl, inr, Bool, true, false, not, List, [], ◌∷◌,
  ◌++◌, arith, if◌then◌else◌, Bool-cases, length,
}
use generic_tests.Common.Int.{ℤ, minus_one, eqb_ℤ}
use generic_tests.Sys.{nat, say, Call, Answer, Prog, skip}
use generic_tests.Sys.Run.{Event, did, got, done, add, run}
use generic_tests.Wait.{Formats, report, wait_loop, goes_on}

-- What can become of a child, and the word that says so.
pub data Change : Type 0 where
  exited : ℕ → Change
  signaled : ℕ → Bool → Change  -- with a core dump
  stopped : ℕ → Change
  continued : Change

abbrev pub encode : Change → ℕ
encode (exited n) = n * 256
encode (signaled n core) = n + (if core then 128 else 0)
encode (stopped n) = n * 256 + 0x7f
encode continued = 0xffff

abbrev pub IsChange : Change → Type 0
IsChange (exited n) = n < 256
IsChange (signaled n core) = (1 ≤ n) × (n ≤ 126)
IsChange (stopped n) = n < 256
IsChange continued = Unit

-- The line for a change.
abbrev pub line : Formats → Change → Call
line f (exited n) = Call.printf f.exited (f.args ++ nat n ∷ [])
line f (signaled n core) = Call.printf f.signaled (f.args ++ nat n ∷ [])
line f (stopped n) = Call.printf f.stopped (f.args ++ nat n ∷ [])
line f continued = Call.printf f.continued f.args

abbrev pub ends : Change → Bool
ends (exited n) = true
ends (signaled n core) = true
ends _ = false

-- On every word that Linux hands out, the ladder prints the line of what happened, with its number.
pub report-encode : (f : Formats) (c : Change) → IsChange c → report f (encode c) ≡ say (line f c)
unfolding report
report-encode f (exited n) h = ground arith
report-encode f (signaled n true) h = ground arith
report-encode f (signaled n false) h = ground arith
report-encode f (stopped n) h = ground arith
report-encode f continued h = refl

pub goes_on-encode : (c : Change) → IsChange c → goes_on (encode c) ≡ not (ends c)
goes_on-encode (exited n) h = ground arith
goes_on-encode (signaled n true) h = ground arith
goes_on-encode (signaled n false) h = ground arith
goes_on-encode (stopped n) h = ground arith
goes_on-encode continued h = refl

-- What `waitpid` answers for a change of the child `w`.
abbrev pub answer : ℤ → Change → Answer
answer w c = record { result = w; status = encode c; bytes = [] }

abbrev pub answers : ℤ → List Change → List Answer → List Answer
answers w [] rest = rest
answers w (c ∷ cs) rest = answer w c ∷ answers w cs rest

-- One wait and one line for each change.
abbrev pub story : Formats → ℤ → ℤ → List Change → List Event
story f pid w [] = []
story f pid w (c ∷ cs) = got (Call.waitpid pid) (answer w c) ∷ did (line f c) ∷ story f pid w cs

-- The changes of one life: stops and continuations, then an end.
abbrev pub IsLife : List Change → Type 0
IsLife [] = ⊥
IsLife (c ∷ []) = IsChange c × (ends c ≡ true)
IsLife (c ∷ d ∷ cs) = IsChange c × (ends c ≡ false) × IsLife (d ∷ cs)

-- One round of the loop on a change.
wait_loop-round :
    (failed : Prog (Unit {0})) (f : Formats) (pid w : ℤ) (fuel : ℕ) (c : Change) (s : List Answer)
    → eqb_ℤ w minus_one ≡ false
    → IsChange c
    → run (wait_loop failed f pid (suc fuel)) (answer w c ∷ s)
      ≡ add
          (got (Call.waitpid pid) (answer w c))
          (add (did (line f c)) (run (if ends c then skip else wait_loop failed f pid fuel) s))
unfolding wait_loop run
wait_loop-round failed f pid w fuel c s alive h =
    rw (alive, report-encode f c h, goes_on-encode c h)
      (elim (Bool-cases (ends c)) [ inl e ↦ rw e | inr e ↦ rw e ])

-- The loop makes one wait and prints one line for each change of the child, and returns at the first
-- exit or killing signal, if the fuel is at least the number of changes.
pub wait_loop_lem :
    (failed : Prog (Unit {0})) (f : Formats) (pid w : ℤ) (fuel : ℕ) (cs : List Change)
    (rest : List Answer)
    → eqb_ℤ w minus_one ≡ false
    → IsLife cs
    → length cs ≤ fuel
    → run (wait_loop failed f pid fuel) (answers w cs rest)
      ≡ record { events = story f pid w cs; outcome = done tt rest }
unfolding run
wait_loop_lem failed f pid w fuel [] rest alive h le = absurd h
wait_loop_lem failed f pid w zero (c ∷ cs) rest alive h le = absurd (omega arith)
wait_loop_lem failed f pid w (suc fuel) (c ∷ []) rest alive h le =
    rw (wait_loop-round failed f pid w fuel c rest alive h.0, h.1) refl
wait_loop_lem failed f pid w (suc fuel) (c ∷ d ∷ cs) rest alive h le =
    rw (wait_loop-round failed f pid w fuel c (answers w (d ∷ cs) rest) alive h.0, h.1)
      (rw (wait_loop_lem failed f pid w fuel (d ∷ cs) rest alive h.2 (omega arith)))
