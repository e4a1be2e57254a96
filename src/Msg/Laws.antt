-- ===== src/Msg/Laws.antt =====
-- What the result of msgtest.c says of its calls.
use generic_tests.Common.{
  ◌≡◌, Bool, not, ◌&&◌, true, Bool-cases, inl, inr, List, [], ◌∷◌, if◌then◌else◌,
}
use generic_tests.Common.Int.{pos, minus_one, eqb_ℤ}
use generic_tests.Sys.{Answer}
use generic_tests.Sys.Run.{run, done, exited}
use generic_tests.Msg.{exchange, msgtest_main}

-- An answer that reports a failure, and that none of a list does.
abbrev pub fails : Answer → Bool
fails a = eqb_ℤ a.result minus_one

abbrev pub none_fails : List Answer → Bool
none_fails [] = true
none_fails (a ∷ more) = not (fails a) && none_fails more

-- msgtest.c returns 0 where the `msgget` with IPC_EXCL on the queue that is there fails and no other
-- call behind `ftok` does, and exits with 1 in every other case.
pub msgtest_result :
    (k q n d r s1 s2 r2 r1 e : Answer)
    → (run msgtest_main (k ∷ q ∷ n ∷ d ∷ r ∷ s1 ∷ s2 ∷ r2 ∷ r1 ∷ e ∷ [])).outcome ≡ (
        if not (fails q) && (fails n && none_fails (d ∷ r ∷ s1 ∷ s2 ∷ r2 ∷ r1 ∷ e ∷ []))
        then done (pos 0) []
        else exited (pos 1))
unfolding msgtest_main exchange run
msgtest_result k q n d r s1 s2 r2 r1 e = elim (Bool-cases (eqb_ℤ q.result minus_one)) [
  | inl f0 ↦ rw f0
  | inr f0 ↦ rw f0 (elim (Bool-cases (eqb_ℤ n.result minus_one)) [
    | inl f1 ↦ rw f1 (elim (Bool-cases (eqb_ℤ d.result minus_one)) [
      | inl f2 ↦ rw f2
      | inr f2 ↦ rw f2 (elim (Bool-cases (eqb_ℤ r.result minus_one)) [
        | inl f3 ↦ rw f3
        | inr f3 ↦ rw f3 (elim (Bool-cases (eqb_ℤ s1.result minus_one)) [
          | inl f4 ↦ rw f4
          | inr f4 ↦ rw f4 (elim (Bool-cases (eqb_ℤ s2.result minus_one)) [
            | inl f5 ↦ rw f5
            | inr f5 ↦ rw f5 (elim (Bool-cases (eqb_ℤ r2.result minus_one)) [
              | inl f6 ↦ rw f6
              | inr f6 ↦ rw f6 (elim (Bool-cases (eqb_ℤ r1.result minus_one)) [
                | inl f7 ↦ rw f7
                | inr f7 ↦ rw f7 (elim (Bool-cases (eqb_ℤ e.result minus_one)) [
                  | inl f8 ↦ rw f8
                  | inr f8 ↦ rw f8
                ])
              ])
            ])
          ])
        ])
      ])
    ])
    | inr f1 ↦ rw f1
  ])
]
