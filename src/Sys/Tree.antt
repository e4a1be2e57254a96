-- ===== src/Sys/Tree.antt =====
-- All the processes of a program: `fork` goes on both as the child and as the parent. The other
-- calls are answered by an environment that gives the same answer to the same call.
use generic_tests.Common.{
  ℕ, ◌+◌, Bool, true, false, List, [], ◌∷◌, ◌++◌, ◌≡◌, refl, arith, Bool-cases, inl, inr,
}
use mathlib.Core.List.{append-nil, append_assoc}
use generic_tests.Common.Int.{pos}
use generic_tests.Sys.Calls.{Call, Answer, fork, printf, pthread_create}
use generic_tests.Sys.Programs.{Prog, ret, exit, replaced, killed, spin, emit, ask, ◌>>=◌}

abbrev pub Env : Type 0
Env = Call → Answer

abbrev pub is_fork : Call → Bool
is_fork fork = true
is_fork _ = false

-- What `fork` answers in the child.
abbrev pub child : Answer
child = record { result = pos 0; status = 0; bytes = [] }

-- The calls of a kind, over all the processes that come of a program.
unfoldable pub calls {ℓ} : {A : Type ℓ} → (Call → ℕ) → Env → Prog A → ℕ
calls w env (ret a) = 0
calls w env (exit n) = 0
calls w env replaced = 0
calls w env (killed n) = 0
calls w env spin = 0
calls w env (emit c p) = w c + calls w env p
calls w env (ask c k) = elim (is_fork c) [
  | true ↦ w c + (calls w env (k child) + calls w env (k (env c)))
  | false ↦ w c + calls w env (k (env c))
]

-- The values with which the processes return.
unfoldable pub returns {ℓ} : {A : Type ℓ} → Env → Prog A → List A
returns env (ret a) = a ∷ []
returns env (exit n) = []
returns env replaced = []
returns env (killed n) = []
returns env spin = []
returns env (emit c p) = returns env p
returns env (ask c k) = elim (is_fork c) [
  | true ↦ returns env (k child) ++ returns env (k (env c))
  | false ↦ returns env (k (env c))
]

-- The sum of `g` over a list.
abbrev pub sum_of {ℓ} : {A : Type ℓ} → (A → ℕ) → List A → ℕ
sum_of g [] = 0
sum_of g (x ∷ xs) = g x + sum_of g xs

pub sum_of-append {ℓ} :
    {A : Type ℓ} (g : A → ℕ) (xs ys : List A) → sum_of g (xs ++ ys) ≡ sum_of g xs + sum_of g ys
sum_of-append g [] ys = omega arith
sum_of-append g (x ∷ xs) ys = omega (arith, sum_of-append g xs ys)

pub sum_of-zero {ℓ} : {A : Type ℓ} (xs : List A) → sum_of (λ _. 0) xs ≡ 0
sum_of-zero [] = refl
sum_of-zero (x ∷ xs) = omega (arith, sum_of-zero xs)

pub sum_of-all_zero {ℓ} :
    {A : Type ℓ} (g : A → ℕ) (xs : List A) → ((x : A) → g x ≡ 0) → sum_of g xs ≡ 0
sum_of-all_zero g [] z = refl
sum_of-all_zero g (x ∷ xs) z = omega (arith, z x, sum_of-all_zero g xs z)

-- Each process that returns goes on with the rest of the program.
pub calls->>= {ℓ κ} :
    {A : Type ℓ} {B : Type κ} (w : Call → ℕ) (env : Env) (p : Prog A) (f : A → Prog B)
    → calls w env (p >>= f) ≡ calls w env p + sum_of (λ a. calls w env (f a)) (returns env p)
unfolding calls returns
calls->>= w env (ret a) f = omega arith
calls->>= w env (exit n) f = omega arith
calls->>= w env replaced f = omega arith
calls->>= w env (killed n) f = omega arith
calls->>= w env spin f = omega arith
calls->>= w env (emit c p) f = omega (arith, calls->>= w env p f)
calls->>= w env (ask c k) f = elim (Bool-cases (is_fork c)) [
  | inl e ↦
      rw
        (
          e,
          calls,
          returns,
          sum_of-append (λ a. calls w env (f a)) (returns env (k child)) (returns env (k (env c))),
        )
        (omega (arith, calls->>= w env (k child) f, calls->>= w env (k (env c)) f))
  | inr e ↦ rw (e, calls, returns) (omega (arith, calls->>= w env (k (env c)) f))
]

-- How many processes a program comes to: one, and one for each `fork`.
abbrev pub fork_weight : Call → ℕ
fork_weight fork = 1
fork_weight _ = 0

unfoldable pub processes {ℓ} : {A : Type ℓ} → Env → Prog A → ℕ
processes env p = 1 + calls fork_weight env p

abbrev pub thread_weight : Call → ℕ
thread_weight (pthread_create i) = 1
thread_weight _ = 0

-- How many threads its processes create.
unfoldable pub threads {ℓ} : {A : Type ℓ} → Env → Prog A → ℕ
threads env p = calls thread_weight env p

abbrev pub print_weight : Call → ℕ
print_weight (printf format args) = 1
print_weight _ = 0

-- How many lines its processes print.
unfoldable pub printed {ℓ} : {A : Type ℓ} → Env → Prog A → ℕ
printed env p = calls print_weight env p

-- What the rest returns, over the values of the first part.
abbrev pub collect {ℓ κ} : {A : Type ℓ} {B : Type κ} → (A → List B) → List A → List B
collect g [] = []
collect g (x ∷ xs) = g x ++ collect g xs

pub collect-nil {ℓ κ} : {A : Type ℓ} {B : Type κ} (xs : List A) → collect {B = B} (λ _. []) xs ≡ []
collect-nil [] = refl
collect-nil (x ∷ xs) = collect-nil xs

collect-append {ℓ κ} :
    {A : Type ℓ} {B : Type κ} (g : A → List B) (xs ys : List A)
    → collect g (xs ++ ys) ≡ collect g xs ++ collect g ys
collect-append g [] ys = refl
collect-append g (x ∷ xs) ys = rw (collect-append g xs ys, append_assoc)

pub returns->>= {ℓ κ} :
    {A : Type ℓ} {B : Type κ} (env : Env) (p : Prog A) (f : A → Prog B)
    → returns env (p >>= f) ≡ collect (λ a. returns env (f a)) (returns env p)
unfolding returns
returns->>= env (ret a) f = rw append-nil
returns->>= env (exit n) f = refl
returns->>= env replaced f = refl
returns->>= env (killed n) f = refl
returns->>= env spin f = refl
returns->>= env (emit c p) f = returns->>= env p f
returns->>= env (ask c k) f = elim (Bool-cases (is_fork c)) [
  | inl e ↦ rw (
    e,
    returns,
    collect-append (λ a. returns env (f a)) (returns env (k child)) (returns env (k (env c))),
    returns->>= env (k child) f,
    returns->>= env (k (env c)) f,
  )
  | inr e ↦ rw (e, returns) (returns->>= env (k (env c)) f)
]

-- A part that forks no process and returns goes on once.
module _ {ℓ κ} {A : Type ℓ} {B : Type κ} (env : Env) (p : Prog A) (f : A → Prog B) {a : A}
    (once : returns env p ≡ a ∷ []) where
  pub calls->>=_once : (w : Call → ℕ) → calls w env (p >>= f) ≡ calls w env p + calls w env (f a)
  calls->>=_once w = rw (calls->>= w env p f, once) (omega arith)

  pub returns->>=_once : returns env (p >>= f) ≡ returns env (f a)
  returns->>=_once = rw (returns->>= env p f, once) (append-nil _)
