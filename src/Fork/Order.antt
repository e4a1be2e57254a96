-- ===== src/Fork/Order.antt =====
-- Two rules that the programs keep or break: nothing is pending in stdout at a `fork`, and at most
-- one child is alive.
use generic_tests.Common.{ℕ, ◌≡◌, refl, Bool, true, false, if◌then◌else◌}
use generic_tests.Common.Int.{ℤ, minus_one, eqb_ℤ}
use generic_tests.Sys.{Prog, fflush, fork, waitpid}
use generic_tests.Sys.Monitor.{Monitor, Meets}
use generic_tests.Sys.Buffer.{
  Mode, clean, dirty, unbuffered, mode_after, IsClean, flushing, Flushes,
}
use generic_tests.Wait.{Formats, wait_loop, goes_on, report, wait_failed}
use generic_tests.Wait.Order.{report-Meets, wait_loop-Meets}

-- No constraint on the buffer.
abbrev pub AnyMode {ℓ} : {A : Type ℓ} → Mode → A → Type 0
AnyMode m a = Unit

-- After a flush nothing is pending.
pub fflush-IsClean : (m : Mode) → IsClean (mode_after fflush m)
fflush-IsClean clean = tt
fflush-IsClean dirty = tt
fflush-IsClean unbuffered = tt

pub report-Flushes : (f : Formats) (st : ℕ) (m : Mode) → Flushes AnyMode m (report f st)
report-Flushes f st m = report-Meets flushing (λ _. Unit) (λ format args m' h. (tt, tt)) f st m tt

pub wait_loop-Flushes :
    (failed : Prog (Unit {0})) (f : Formats) (pid : ℤ)
    → ((m : Mode) → Flushes AnyMode m failed)
    → (fuel : ℕ) (m : Mode) → Flushes AnyMode m (wait_loop failed f pid fuel)
wait_loop-Flushes failed f pid fails fuel m =
    wait_loop-Meets flushing (λ _. Unit) AnyMode failed f pid (λ format args m' h. (tt, tt))
      (λ m' h. tt) (λ m' a h e. fails m') (λ m' a h e g. tt)
      (λ m' a h e g. report-Flushes f a.status m') fuel m tt

-- Whether a child is alive: from a `fork` that succeeds to a wait that gives an end.
abbrev pub one_child : Monitor
one_child = record {
  State = Bool;
  guard = λ c b. elim c [ fork ↦ b ≡ false | _ ↦ Unit ];
  after_emit = λ c b. b;
  after_ask = λ c a b. elim c [
    | fork ↦ if eqb_ℤ a.result minus_one then b else true
    | waitpid pid ↦ if eqb_ℤ a.result minus_one then b else (if goes_on a.status then b else false)
    | _ ↦ b
  ];
  closing = λ b. Unit;
}

pub wait_loop-one_child :
    (f : Formats) (pid : ℤ) (fuel : ℕ)
    → Meets one_child (λ b _. b ≡ false) true (wait_loop wait_failed f pid fuel)
wait_loop-one_child f pid fuel =
    wait_loop-Meets one_child (λ b. b ≡ true) (λ b _. b ≡ false) wait_failed f pid
      (λ format args b h. (tt, h)) (λ b h. tt) (λ b a h e. (tt, tt)) (λ b a h e g. rw (e, g) h)
      (λ b a h e g.
        rw (e, g)
          (report-Meets one_child (λ b'. b' ≡ false) (λ format args b' h'. (tt, h')) f a.status
            false refl))
      fuel true refl
