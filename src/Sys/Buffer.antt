-- ===== src/Sys/Buffer.antt =====
-- The buffer of stdout across `fork`: the child starts with a copy of the lines that the parent has
-- not flushed, so each of those is written twice. A successful `execve` and a fault drop them.
use generic_tests.Common.{ℕ, zero, suc, ◌+◌, ◌≡◌, refl, true, false, arith}
use generic_tests.Sys.Calls.{Call, fork, printf, fflush, setbuf}
use generic_tests.Sys.Programs.{Prog, ret, exit, replaced, killed, spin, emit, ask}
use generic_tests.Sys.Monitor.{Monitor, Meets}
use generic_tests.Sys.Tree.{Env, is_fork, child, calls, printed, print_weight}

-- The lines that are pending, or no buffer at all, after `setbuf(stdout, NULL)`.
pub data Buffer : Type 0 where
  buffered : ℕ → Buffer
  direct : Buffer

abbrev pub pending : Buffer → ℕ
pending (buffered n) = n
pending direct = 0

abbrev pub buffer_after : Call → Buffer → Buffer
buffer_after (printf format args) (buffered n) = buffered (suc n)
buffer_after fflush (buffered n) = buffered 0
buffer_after setbuf (buffered n) = direct
buffer_after _ b = b

-- The lines that a call writes.
abbrev pub lines_out : Call → Buffer → ℕ
lines_out (printf format args) direct = 1
lines_out fflush (buffered n) = n
lines_out setbuf (buffered n) = n
lines_out _ b = 0

-- The lines that all the processes of a program write in the end.
unfoldable pub written {ℓ} : {A : Type ℓ} → Env → Buffer → Prog A → ℕ
written env b (ret a) = pending b
written env b (exit n) = pending b
written env b replaced = 0
written env b (killed n) = 0
written env b spin = pending b
written env b (emit c p) = lines_out c b + written env (buffer_after c b) p
written env b (ask c k) = elim (is_fork c) [
  | true ↦ written env b (k child) + written env b (k (env c))
  | false ↦ lines_out c b + written env (buffer_after c b) (k (env c))
]

pub data Mode : Type 0 where
  clean dirty unbuffered : Mode

abbrev pub mode : Buffer → Mode
mode (buffered zero) = clean
mode (buffered (suc n)) = dirty
mode direct = unbuffered

abbrev pub mode_after : Call → Mode → Mode
mode_after (printf format args) clean = dirty
mode_after (printf format args) dirty = dirty
mode_after fflush dirty = clean
mode_after setbuf m = unbuffered
mode_after _ m = m

abbrev pub IsClean : Mode → Type 0
IsClean dirty = ⊥
IsClean _ = Unit

abbrev pub Guard : Call → Mode → Type 0
Guard fork m = IsClean m
Guard _ m = Unit

-- Nothing is pending where a process forks, is replaced or faults.
abbrev pub flushing : Monitor
flushing = record {
  State = Mode;
  guard = Guard;
  after_emit = mode_after;
  after_ask = λ c a m. mode_after c m;
  closing = IsClean;
}

abbrev pub Flushes {ℓ} : {A : Type ℓ} → (Mode → A → Type 0) → Mode → Prog A → Type 0
Flushes Q m p = Meets flushing Q m p

mode-buffer_after : (c : Call) (b : Buffer) → mode (buffer_after c b) ≡ mode_after c (mode b)
mode-buffer_after (printf format args) (buffered zero) = refl
mode-buffer_after (printf format args) (buffered (suc n)) = refl
mode-buffer_after (printf format args) direct = refl
mode-buffer_after fflush (buffered zero) = refl
mode-buffer_after fflush (buffered (suc n)) = refl
mode-buffer_after fflush direct = refl
mode-buffer_after setbuf (buffered zero) = refl
mode-buffer_after setbuf (buffered (suc n)) = refl
mode-buffer_after setbuf direct = refl
mode-buffer_after _ _ = refl

lines_out-pending :
    (c : Call) (b : Buffer)
    → lines_out c b + pending (buffer_after c b) ≡ print_weight c + pending b
lines_out-pending (printf format args) (buffered n) = omega arith
lines_out-pending (printf format args) direct = omega arith
lines_out-pending fflush (buffered n) = omega arith
lines_out-pending fflush direct = omega arith
lines_out-pending setbuf (buffered n) = omega arith
lines_out-pending setbuf direct = omega arith
lines_out-pending _ _ = omega arith

pending-IsClean : (b : Buffer) → IsClean (mode b) → pending b ≡ 0
pending-IsClean (buffered zero) h = refl
pending-IsClean (buffered (suc n)) h = absurd h
pending-IsClean direct h = refl

-- If a program flushes before each `fork`, every line is written once: as many lines come out as
-- are printed.
pub written-Flushes {ℓ} :
    {A : Type ℓ} (env : Env) (Q : Mode → A → Type 0) (b : Buffer) (p : Prog A)
    → Flushes Q (mode b) p
    → written env b p ≡ pending b + printed env p
unfolding written printed calls
written-Flushes env Q b (ret a) h = omega arith
written-Flushes env Q b (exit n) h = omega arith
written-Flushes env Q b replaced h = omega (arith, pending-IsClean b h)
written-Flushes env Q b (killed n) h = omega (arith, pending-IsClean b h)
written-Flushes env Q b spin h = omega arith
written-Flushes env Q b (emit c p) h = omega (
  arith,
  lines_out-pending c b,
  written-Flushes env Q (buffer_after c b) p (rw (mode-buffer_after c b) h.1),
)
written-Flushes env Q b (ask fork k) h = omega (
  arith,
  pending-IsClean b h.0,
  written-Flushes env Q b (k child) (h.1 child),
  written-Flushes env Q b (k (env fork)) (h.1 (env fork)),
)
written-Flushes env Q b (ask c k) h = omega (
  arith,
  lines_out-pending c b,
  written-Flushes env Q (buffer_after c b) (k (env c)) (rw (mode-buffer_after c b) (h.1 (env c))),
)

-- From an empty buffer.
pub written_once {ℓ} :
    {A : Type ℓ} (env : Env) (Q : Mode → A → Type 0) (p : Prog A)
    → Flushes Q clean p
    → written env (buffered 0) p ≡ printed env p
written_once env Q p h = omega (arith, written-Flushes env Q (buffered 0) p h)
