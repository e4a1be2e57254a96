-- ===== src/Sys/Programs.antt =====
-- Programs as trees of calls, with their monad.
use generic_tests.Common.{ℕ, String, List}
use generic_tests.Common.Int.{ℤ}
use generic_tests.Sys.Calls.{Call, Answer, Arg}

pub data Prog {ℓ} (A : Type ℓ) : Type ℓ where
  ret : A → Prog A
  exit : ℤ → Prog A  -- `exit(code)`
  replaced : Prog A  -- a successful `execve`
  killed : ℕ → Prog A  -- a fault raised by the program's own instruction: its signal
  spin : Prog A  -- the fuel of a `while` has run out
  emit : Call → Prog A → Prog A  -- a call whose result the source ignores
  ask : Call → (Answer → Prog A) → Prog A

infixl 5 ◌>>=◌ ◌>>◌
abbrev pub ◌>>=◌ {ℓ κ} : {A : Type ℓ} {B : Type κ} → Prog A → (A → Prog B) → Prog B
ret a >>= f = f a
exit n >>= f = exit n
replaced >>= f = replaced
killed n >>= f = killed n
spin >>= f = spin
emit c p >>= f = emit c (p >>= f)
ask c k >>= f = ask c (λ a. k a >>= f)

abbrev pub ◌>>◌ {ℓ κ} : {A : Type ℓ} {B : Type κ} → Prog A → Prog B → Prog B
p >> q = p >>= λ _. q

-- A statement that ignores the result of its call.
abbrev pub say : Call → Prog (Unit {0})
say c = emit c (ret tt)

-- A call whose value is used.
abbrev pub call : Call → Prog Answer
call c = ask c (λ a. ret a)

abbrev pub value_of : Call → Prog ℤ
value_of c = ask c (λ a. ret a.result)

-- `printf(format, args); fflush(stdout);`
abbrev pub print : String → List Arg → Prog (Unit {0})
print format args = say (Call.printf format args)

abbrev pub print_flush : String → List Arg → Prog (Unit {0})
print_flush format args = emit (Call.printf format args) (say Call.fflush)

abbrev pub skip : Prog (Unit {0})
skip = ret tt
