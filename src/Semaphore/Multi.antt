-- ===== src/Semaphore/Multi.antt =====
-- semaphore.c: `sem_op`, and `multisem_op` with the array that it fills.
use generic_tests.Common.{
  ℕ, zero, suc, ◌+◌, ◌-◌, ◌<◌, ◌≡◌, refl, ◌∙◌, true, false, Option, none, some, List, [], ◌∷◌, ◌++◌,
  arith, ltb, if◌then◌else◌, length, replicate, set, length-replicate, length-append, length-set,
  set-append_at, lt→ltb, ltb→lt, Bool-cases, inl, inr,
}
use mathlib.Core.List.{append_assoc}
use native.Mathlib.Nat.{sub-zero}
use generic_tests.Common.Int.{ℤ, pos, minus_one, eqb_ℤ}
use generic_tests.Sys.{Arg, int, nat, Prog, emit, ask, exit, skip, sys, perror}

-- `struct sembuf`; `wait` stands for the flags, `SEM_UNDO|IPC_NOWAIT` or 0.
pub record Sembuf : Type 0 where
  pub num : ℕ
  pub op : ℤ
  pub flags : ℕ

-- `SEM_UNDO|IPC_NOWAIT`
abbrev pub undo_nowait : ℕ
undo_nowait = 0x1000 + 0x800

-- An array of which some entries have no value yet.
abbrev pub Array : Type 0
Array = List (Option Sembuf)

-- `sb[i] = …`; `none` where `i` is out of bounds, which C leaves undefined.
pub store : Array → ℕ → Sembuf → Option Array
store sb i v = if ltb i (length sb) then some (set sb i (some v)) else none

-- The loop over `semnum`, by the rounds that are left.
pub fill : ℕ → ℕ → ℤ → Array → Option Array
fill zero semnum op sb = some sb
fill (suc left) semnum op sb =
    elim (store sb semnum (record { num = semnum; op = op; flags = undo_nowait })) [
      | none ↦ none
      | some sb' ↦ fill left (semnum + 1) op sb'
    ]

-- `struct sembuf sb[highsemnum-lowsemnum];` and the loop that fills it.
pub multisem_array : ℕ → ℕ → ℤ → Option Array
multisem_array low high op = fill (high - low) low op (replicate (high - low) none)

abbrev pub entry_args : Array → List Arg
entry_args [] = []
entry_args (none ∷ sb) = entry_args sb
entry_args (some v ∷ sb) = nat v.num ∷ int v.op ∷ nat v.flags ∷ entry_args sb

-- `semop(semid, sb, n)` with its check.
abbrev pub checked_semop : Array → Prog (Unit {0})
checked_semop sb =
    ask (sys "semop" (entry_args sb))
      (λ a. if eqb_ℤ a.result minus_one then emit (perror "semop") (exit (pos 1)) else skip)

pub sem_op : ℕ → ℤ → Prog (Unit {0})
sem_op semnum op = checked_semop (some (record { num = semnum; op = op; flags = 0 }) ∷ [])

-- `multisem_op`; `none` where it is undefined.
pub multisem_op : ℕ → ℕ → ℤ → Option (Prog (Unit {0}))
multisem_op low high op = elim (multisem_array low high op) [
  | none ↦ none
  | some sb ↦ some (checked_semop sb)
]

-- The operations on the semaphores `i`, `i + 1`, … , as many as there are.
abbrev pub operations : ℕ → ℕ → ℤ → Array
operations zero i op = []
operations (suc n) i op =
    some (record { num = i; op = op; flags = undo_nowait }) ∷ operations n (i + 1) op

abbrev empty_entry : Option Sembuf
empty_entry = none

abbrev operation : ℕ → ℤ → Sembuf
operation i op = record { num = i; op = op; flags = undo_nowait }

-- One round in bounds, and one out of bounds.
fill_in :
    (left i : ℕ) (op : ℤ) (sb : Array)
    → ltb i (length sb) ≡ true
    → fill (suc left) i op sb ≡ fill left (i + 1) op (set sb i (some (operation i op)))
unfolding fill store
fill_in left i op sb e = rw (fill, e)

fill_past :
    (left i : ℕ) (op : ℤ) (sb : Array) → ltb i (length sb) ≡ false → fill (suc left) i op sb ≡ none
unfolding fill store
fill_past left i op sb e = rw (fill, e)

-- The loop behind the entries that it has filled.
fill_lem :
    (left i : ℕ) (op : ℤ) (filled : Array)
    → length filled ≡ i
    → fill left i op (filled ++ replicate left none) ≡ some (filled ++ operations left i op)
unfolding fill
fill_lem zero i op filled e = refl
fill_lem (suc left) i op filled e =
    let v = some (operation i op) in
    let rest : Array = replicate left none in
    let here : ltb i (length (filled ++ none ∷ rest)) ≡ true =
      lt→ltb i _ (omega (arith, length-append filled (none ∷ rest))) in
    let same : set (filled ++ none ∷ rest) i v ≡ filled ++ v ∷ rest =
      set-append_at filled i none rest v e in
    let next =
      fill_lem left (i + 1) op (filled ++ v ∷ []) (omega (arith, length-append filled (v ∷ []))) in
    fill_in left i op (filled ++ none ∷ rest) here
    ∙ (rw
        (
          same,
          ← append_assoc filled (v ∷ []) rest,
          ← append_assoc filled (v ∷ []) (operations left (i + 1) op),
        )
        next)

-- The loop runs out of an array that ends before its last index.
fill_out :
    (left i : ℕ) (op : ℤ) (sb : Array) → 0 < left → length sb < i + left → fill left i op sb ≡ none
fill_out zero i op sb some_left out = absurd (omega arith)
fill_out (suc left) i op sb some_left out = elim (Bool-cases (ltb i (length sb))) [
  | inl e ↦
      fill_in left i op sb e
      ∙ fill_out left (i + 1) op _ (omega (arith, ltb→lt i (length sb) e))
          (omega (arith, length-set sb i (some (operation i op))))
  | inr e ↦ fill_past left i op sb e
]

-- `multisem_op` on a range of semaphores is defined exactly where the range starts at semaphore 0:
-- then it fills one operation for each of them. Otherwise it writes behind the end of its array.
pub multisem_defined :
    (low high : ℕ) (op : ℤ)
    → low < high
    → ((low ≡ 0) → multisem_array low high op ≡ some (operations high 0 op))
      × (0 < low → multisem_array low high op ≡ none)
unfolding multisem_array
multisem_defined low high op lt = (
  λ e. rw (e, sub-zero) (fill_lem high 0 op [] refl),
  λ h.
      fill_out (high - low) low op (replicate (high - low) none) (omega arith)
        (omega (arith, length-replicate (high - low) (empty_entry))),
)
