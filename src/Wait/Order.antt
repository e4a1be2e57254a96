-- ===== src/Wait/Order.antt =====
-- The ladder and the loop under a monitor, and in the tree of processes.
use generic_tests.Common.{
  ℕ, zero, suc, ◌+◌, ◌≡◌, refl, inl, inr, true, false, List, [], ◌∷◌, String, arith, Bool-cases,
}
use generic_tests.Common.Int.{ℤ, minus_one, eqb_ℤ}
use generic_tests.Sys.{Arg, Call, Answer, Prog, skip, waitpid, printf}
use generic_tests.Sys.Monitor.{Monitor, Meets, Meets->>=}
use generic_tests.Sys.Tree.{Env, calls, returns}
use generic_tests.Wait.{
  Formats, report, wait_loop, goes_on, if_exited, if_signaled, if_stopped, if_continued,
}
use generic_tests.Wait.Laws.{Change, IsChange, ends, encode, line, report-encode, goes_on-encode}

module _ (M : Monitor) (J : M.State → Type 0) where
  -- That a line may be printed at any time, and keeps `J`.
  abbrev pub Prints : Type 0
  Prints =
      (format : String) (args : List Arg) (m : M.State)
      → J m
      → M.guard (printf format args) m × J (M.after_emit (printf format args) m)

  pub report-Meets :
      Prints → (f : Formats) (st : ℕ) (m : M.State) → J m → Meets M (λ m' _. J m') m (report f st)
  unfolding report
  report-Meets prints f st m h = elim (Bool-cases (if_exited st)) [
    | inl e ↦ rw e (prints _ _ m h)
    | inr e ↦ rw e (elim (Bool-cases (if_signaled st)) [
      | inl e2 ↦ rw e2 (prints _ _ m h)
      | inr e2 ↦ rw e2 (elim (Bool-cases (if_stopped st)) [
        | inl e3 ↦ rw e3 (prints _ _ m h)
        | inr e3 ↦ rw e3 (elim (Bool-cases (if_continued st)) [
          | inl e4 ↦ rw e4 (prints _ _ m h)
          | inr e4 ↦ rw e4 h
        ])
      ])
    ])
  ]

  -- `J` holds while the loop goes on, `K` once the child has ended, and the loop returns with `Q`.
  pub wait_loop-Meets :
      (Q : M.State → Unit {0} → Type 0) (failed : Prog (Unit {0})) (f : Formats) (pid : ℤ)
      → Prints
      → ((m : M.State) → J m → M.guard (waitpid pid) m)
      → ((m : M.State) (a : Answer)
          → J m
          → eqb_ℤ a.result minus_one ≡ true
          → Meets M Q (M.after_ask (waitpid pid) a m) failed)
      → ((m : M.State) (a : Answer)
          → J m
          → eqb_ℤ a.result minus_one ≡ false
          → goes_on a.status ≡ true
          → J (M.after_ask (waitpid pid) a m))
      → ((m : M.State) (a : Answer)
          → J m
          → eqb_ℤ a.result minus_one ≡ false
          → goes_on a.status ≡ false
          → Meets M Q (M.after_ask (waitpid pid) a m) (report f a.status))
      → (fuel : ℕ) (m : M.State) → J m
      → Meets M Q m (wait_loop failed f pid fuel)
  unfolding wait_loop
  wait_loop-Meets Q failed f pid prints guarded fails stays leaves zero m h = tt
  wait_loop-Meets Q failed f pid prints guarded fails stays leaves (suc fuel) m h = (
    guarded m h,
    λ a. elim (Bool-cases (eqb_ℤ a.result minus_one)) [
      | inl e ↦ rw e (fails m a h e)
      | inr e ↦ rw e (elim (Bool-cases (goes_on a.status)) [
        | inl g ↦ rw g (
            Meets->>= M (λ m' _. J m') Q (λ _. wait_loop failed f pid fuel)
              (λ m' _ h'.
                wait_loop-Meets Q failed f pid prints guarded fails stays leaves fuel m' h')
              (M.after_ask (waitpid pid) a m) (report f a.status)
              (report-Meets prints f a.status (M.after_ask (waitpid pid) a m) (stays m a h e g)))
        | inr g ↦ rw g (
            Meets->>= M Q Q (λ _. skip) (λ m' u h'. h') (M.after_ask (waitpid pid) a m)
              (report f a.status) (leaves m a h e g))
      ])
    ],
  )

-- Where the first wait gives an end, the loop is one wait and one line.
pub wait_loop-calls :
    (w : Call → ℕ) (env : Env) (failed : Prog (Unit {0})) (f : Formats) (pid : ℤ) (fuel : ℕ)
    (c : Change)
    → eqb_ℤ (env (waitpid pid)).result minus_one ≡ false
    → (env (waitpid pid)).status ≡ encode c
    → IsChange c
    → ends c ≡ true
    → (calls w env (wait_loop failed f pid (suc fuel)) ≡ w (waitpid pid) + w (line f c))
      × (returns env (wait_loop failed f pid (suc fuel)) ≡ tt ∷ [])
unfolding wait_loop calls returns
wait_loop-calls w env failed f pid fuel c alive e h last = (
  rw (alive, e, goes_on-encode c h, last, report-encode f c h) (omega arith),
  rw (returns, alive, e, goes_on-encode c h, last, report-encode f c h),
)

-- The ladder returns once, and makes no call that a weight without lines counts.
pub report-once :
    (w : Call → ℕ) (env : Env) (f : Formats) (st : ℕ)
    → ((format : String) (args : List Arg) → w (printf format args) ≡ 0)
    → (calls w env (report f st) ≡ 0) × (returns env (report f st) ≡ tt ∷ [])
unfolding report calls returns
report-once w env f st zero_of = elim (Bool-cases (if_exited st)) [
  | inl e ↦ rw e (omega (arith, zero_of f.exited _), refl)
  | inr e ↦ rw e (elim (Bool-cases (if_signaled st)) [
    | inl e2 ↦ rw e2 (omega (arith, zero_of f.signaled _), refl)
    | inr e2 ↦ rw e2 (elim (Bool-cases (if_stopped st)) [
      | inl e3 ↦ rw e3 (omega (arith, zero_of f.stopped _), refl)
      | inr e3 ↦ rw e3 (elim (Bool-cases (if_continued st)) [
        | inl e4 ↦ rw e4 (omega (arith, zero_of f.continued _), refl)
        | inr e4 ↦ rw e4 (refl, refl)
      ])
    ])
  ])
]
