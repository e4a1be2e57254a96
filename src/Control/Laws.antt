-- ===== src/Control/Laws.antt =====
-- What the threads of controlthreads.c come to: the loops that wait for "bingo".
use generic_tests.Common.{
  ◌∙◌, Bool, ℕ, zero, suc, ◌<◌, ◌≡◌, refl, inl, inr, true, false, List, [], ◌∷◌, ◌++◌, arith,
  length, ◌&&◌, Bool-cases,
}
use generic_tests.Common.Int.{ltb_ℤ, ℤ, pos, eqb_ℤ}
use generic_tests.Sys.{Answer, Prog, ◌>>◌}
use generic_tests.Sys.Run.{run, done, run->>=}
use generic_tests.Socket.{overlay}
use generic_tests.Control.{byte_at, starts_with, bingo}
use generic_tests.Control.Threads.{bingo_loop, short_dev, short_file, bad_input}

-- Reads, from a buffer on, that do not end the loop.
abbrev pub IsBad : List ℕ → List Answer → Type 0
IsBad input [] = Unit
IsBad input (a ∷ more) =
    ((eqb_ℤ a.result (pos 10) && starts_with bingo (overlay input a.bytes)) ≡ false)
    × IsBad (overlay input a.bytes) more

-- The buffer after the reads.
abbrev pub after_reads : List ℕ → List Answer → List ℕ
after_reads input [] = input
after_reads input (a ∷ more) = after_reads (overlay input a.bytes) more

-- A part that returns without an answer.
abbrev pub Passes : Prog (Unit {0}) → Type 0
Passes p = (s : List Answer) → (run p s).outcome ≡ done tt s

resume-Passes {ℓ} :
    {A : Type ℓ} (p : Prog (Unit {0})) (q : Prog A) (s : List Answer)
    → Passes p
    → (run (p >> q) s).outcome ≡ (run q s).outcome
resume-Passes p q s passes = rw (run->>= p (λ _. q) s, passes s)

wrong_word : (x y : Bool) → x ≡ true → (x && y) ≡ false → y ≡ false
wrong_word true y e h = h
wrong_word false y e h = absurd cc

-- The loop of `waitfakedev` and `waitfakefile` returns at the first read of ten bytes that leaves
-- "bingo" at the start of its buffer, with the tenth byte, if the fuel is more than the number of
-- reads before it.
pub bingo_loop_lem :
    (short : ℤ → Prog (Unit {0})) (wrong : List ℕ → Prog (Unit {0})) (fd : ℤ) (fuel : ℕ)
    (input : List ℕ) (bad : List Answer) (good : Answer) (rest : List Answer)
    → ((nb : ℤ) → Passes (short nb))
    → ((input' : List ℕ) → Passes (wrong input'))
    → IsBad input bad
    → (good.result ≡ pos 10)
    → (starts_with bingo (overlay (after_reads input bad) good.bytes) ≡ true)
    → length bad < fuel
    → (run (bingo_loop short wrong fd fuel input) (bad ++ good ∷ rest)).outcome
      ≡ done (byte_at 9 (overlay (after_reads input bad) good.bytes)) rest
unfolding bingo_loop run
bingo_loop_lem short wrong fd zero input bad good rest ps pw bads ten word lt = absurd (omega arith)
bingo_loop_lem short wrong fd (suc fuel) input [] good rest ps pw bads ten word lt = rw (ten, word)
bingo_loop_lem short wrong fd (suc fuel) input (a ∷ more) good rest ps pw bads ten word lt =
    let after = overlay input a.bytes in
    let further =
      bingo_loop_lem short wrong fd fuel after more good rest ps pw bads.1 ten word (omega arith) in
    elim (Bool-cases (eqb_ℤ a.result (pos 10))) [
      | inl e ↦
          rw (e, wrong_word _ _ e bads.0)
            (resume-Passes (wrong after) (bingo_loop short wrong fd fuel after)
                (more ++ good ∷ rest) (pw after)
              ∙ further)
      | inr e ↦ rw e (
          resume-Passes (short a.result) (bingo_loop short wrong fd fuel after)
            (more ++ good ∷ rest) (ps a.result)
          ∙ further)
    ]

-- What `waitfakedev` and `waitfakefile` do after a bad read.
pub short_dev-Passes : (nb : ℤ) → Passes (short_dev nb)
unfolding run
short_dev-Passes nb s = elim (Bool-cases (ltb_ℤ (pos 0) nb)) [ inl e ↦ rw e | inr e ↦ rw e ]

pub short_file-Passes : (nb : ℤ) → Passes (short_file nb)
unfolding run
short_file-Passes nb s = elim (Bool-cases (eqb_ℤ nb (pos 0))) [ inl e ↦ rw e | inr e ↦ rw e ]

pub bad_input-Passes : (input : List ℕ) → Passes (bad_input input)
unfolding run
bad_input-Passes input s = refl
