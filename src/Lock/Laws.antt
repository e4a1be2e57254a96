-- ===== src/Lock/Laws.antt =====
-- When the second thread gets the lock, where no other thread changes it.
use text.Mathlib.Text.{◌==◌ as is_text}
use generic_tests.Common.{
  ◌&&◌, ℕ, zero, suc, ◌≡◌, refl, ◌∙◌, inl, inr, true, false, String, Bool, List, [], ◌∷◌, ◌==◌,
  ◌||◌, Bool-cases, if◌then◌else◌, arith,
}
use generic_tests.Common.Int.{pos}
use generic_tests.Sys.{Answer, Arg, Call, Prog, str, printf, sys, sleep, ◌>>=◌}
use generic_tests.Sys.Run.{Outcome, done, waiting, spun}
use generic_tests.Sys.Serve.{Server, drive_until}
use generic_tests.Lock.{
  futex_wait, atomic_load, atomic_store, compare_exchange, acquire_loop, lock_acquire, owner_died,
  thread2, use_lock,
}

abbrev pub gives : ℕ → Answer
gives n = record { result = pos n; status = 0; bytes = [] }

-- The word of the lock: what the atomic operations do with it, and that the other calls leave it
-- alone. A weak exchange on a free lock may fail; whether it does is `spurious`.
pub record IsWord {S : Type 0} (serve : Server S) (word : S → ℕ) (spurious : Bool) : Type 0 where
  pub loads : (s : S) → serve atomic_load s ≡ (gives (word s), s)
  pub stores : (v : ℕ) (s : S) → word (serve (atomic_store v) s).1 ≡ v
  pub taken :
      (new : ℕ) (s : S) → (word s == 0) ≡ false → serve (compare_exchange new) s ≡ (gives 0, s)
  pub exchanges :
      (new : ℕ) (s : S)
      → (word s == 0) ≡ true
      → spurious ≡ false
      → (serve (compare_exchange new) s).0 ≡ gives 1
  pub fails :
      (new : ℕ) (s : S)
      → (word s == 0) ≡ true
      → spurious ≡ true
      → serve (compare_exchange new) s ≡ (gives 0, s)
  pub printed :
      (format : String) (args : List Arg) (s : S) → word (serve (printf format args) s).1 ≡ word s
  pub slept : (n : ℕ) (s : S) → word (serve (sleep n) s).1 ≡ word s
  pub flushed : (args : List Arg) (s : S) → word (serve (sys "fflush" args) s).1 ≡ word s
  pub asked : (args : List Arg) (s : S) → word (serve (sys "pthread_self" args) s).1 ≡ word s
  pub waited : (args : List Arg) (s : S) → word (serve (sys "futex" args) s).1 ≡ word s

-- FUTEX_WAIT blocks where the word is the value that it is given; no other thread will wake the
-- process.
abbrev pub sleeps {ℓ} : {S : Type ℓ} → (S → ℕ) → Call → S → Bool
sleeps word (Call.sys name (Arg.str target ∷ Arg.str op ∷ Arg.nat val ∷ [])) s =
    is_text op "FUTEX_WAIT" && (word s == val)
sleeps word c s = false

-- That the lock is free, or marked by the death of its owner.
abbrev pub recoverable : ℕ → Bool
recoverable w = (w == 0) || owner_died w

eq-zero : (n : ℕ) → (n == 0) ≡ true → n ≡ 0
eq-zero n e = ground arith

module _ {S : Type 0} (serve : Server S) (word : S → ℕ) (spurious : Bool)
    (kernel : IsWord serve word spurious) where
  abbrev pub outcome : Prog (Unit {0}) → S → Outcome (Unit {0}) × S
  outcome p s = drive_until (sleeps word) serve p s

  -- A lock that is held is waited for without an end.
  held_spins :
      (fuel tid : ℕ) (f g : Unit {0} → Prog (Unit {0})) (s : S)
      → (word s == 0) ≡ false
      → ((outcome (acquire_loop fuel tid >>= f >>= g) s).0 ≡ spun)
        × (word (outcome (acquire_loop fuel tid >>= f >>= g) s).1 ≡ word s)
  unfolding acquire_loop drive_until
  held_spins zero tid f g s held = (refl, refl)
  held_spins (suc fuel) tid f g s held =
      let s' = (serve (futex_wait 0) s).1 in
      let same : word s' ≡ word s = kernel.waited _ s in
      let (ends, keeps) = held_spins fuel tid f g s' (rw same held) in
      rw (drive_until, kernel.taken tid s held, held) (ends, keeps ∙ same)

  use_lock_held :
      (fuel : ℕ) (s : S)
      → (word s == 0) ≡ false
      → ((outcome (use_lock fuel) s).0 ≡ spun) × (word (outcome (use_lock fuel) s).1 ≡ word s)
  unfolding lock_acquire drive_until
  use_lock_held fuel s held =
      let s' = (serve (sys "pthread_self" []) s).1 in
      let same : word s' ≡ word s = kernel.asked [] s in
      let (ends, keeps) = held_spins fuel _ _ _ s' (rw same held) in (ends, keeps ∙ same)

  -- Where the first exchange on a free lock works, and where it fails.
  abbrev pub first_end : Outcome (Unit {0})
  first_end = if spurious then waiting (futex_wait 0) else done tt []

  use_lock_free :
      (fuel : ℕ) (s : S)
      → (word s == 0) ≡ true
      → ((outcome (use_lock (suc fuel)) s).0 ≡ first_end)
        × (word (outcome (use_lock (suc fuel)) s).1 ≡ 0)
  unfolding lock_acquire acquire_loop drive_until
  use_lock_free fuel s is_free =
      let s' = (serve (sys "pthread_self" []) s).1 in
      let same : word s' ≡ word s = kernel.asked [] s in
      elim (Bool-cases spurious) [
        | inl e ↦
            rw (drive_until, kernel.fails _ s' (rw same is_free) e, same, is_free, e)
              (refl, same ∙ eq-zero (word s) is_free)
        | inr e ↦
            rw (drive_until, kernel.exchanges _ s' (rw same is_free) e, e)
              (refl, simp (kernel.flushed, kernel.printed, kernel.waited, kernel.stores))
      ]

  -- The second thread returns and leaves the lock free if the lock was free or marked and the first
  -- exchange does not fail spuriously. If that fails, the thread waits for ever on a lock that is
  -- free. On a lock that is held and not marked it tries for ever.
  pub thread2_lem :
      (fuel : ℕ) (s : S)
      → ((outcome (thread2 (suc fuel)) s).0 ≡ (if recoverable (word s) then first_end else spun))
        × (word (outcome (thread2 (suc fuel)) s).1 ≡ (if recoverable (word s) then 0 else word s))
  unfolding thread2 drive_until
  thread2_lem fuel s =
      let s1 =
        (serve (sys "fflush" (str "NULL" ∷ []))
          (serve (printf "[t2] Trying to acquire lock after t1 died\n" [])
            (serve (sleep 10) s).1).1).1 in
      let same : word s1 ≡ word s = simp (kernel.flushed, kernel.printed, kernel.slept) in
      let s2 =
        (serve (atomic_store 0)
          (serve (sys "fflush" (str "NULL" ∷ []))
            (serve (printf "[t2] Detected owner died (FUTEX_OWNER_DIED). Cleaning up.\n" [])
              s1).1).1).1 in
      rw (drive_until, kernel.loads s1, same)
        (elim (Bool-cases (owner_died (word s))) [
          | inl died ↦
              rw (drive_until, died)
                (elim (Bool-cases (word s == 0)) [
                  | inl z ↦ rw z (use_lock_free fuel s2 (rw (kernel.stores 0) refl))
                  | inr z ↦ rw z (use_lock_free fuel s2 (rw (kernel.stores 0) refl))
                ])
          | inr alive ↦
              rw (drive_until, alive)
                (elim (Bool-cases (word s == 0)) [
                  | inl z ↦ rw z (use_lock_free fuel s1 (rw same z))
                  | inr z ↦ rw z (
                      let (ends, keeps) = use_lock_held (suc fuel) s1 (rw same z) in
                      (ends, keeps ∙ same))
                ])
        ])
