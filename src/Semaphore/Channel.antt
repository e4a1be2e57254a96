-- ===== src/Semaphore/Channel.antt =====
-- semaphore.c against its specification: a channel that holds one message at most.
use generic_tests.Common.{
  ℕ, zero, suc, ◌+◌, ◌≡◌, refl, sym, ◌⊎◌, inl, inr, none, some, Option, List, [], ◌∷◌, arith, ◌==◌,
  if◌then◌else◌,
}
use mathlib.Core.Path.{subst}
use generic_tests.Semaphore.{
  Producer, Consumer, State, initial, produce, consume, Step, by_producer, by_consumer, Reach,
  start, later,
}
use generic_tests.Semaphore.Laws.{Inv, Reach-Inv, reads, seen}

-- The message in the channel, how many have been put there, and those taken, the newest first.
pub record Channel : Type 0 where
  pub slot : Option ℕ
  pub sent : ℕ
  pub taken : List ℕ

-- A message is put where there is none, and taken where there is one.
pub data Transfer (c d : Channel) : Type 0 where
  put :
      c.slot ≡ none
      → d ≡ record { slot = some (c.sent + 1); sent = c.sent + 1; taken = c.taken }
      → Transfer c d
  take :
      (m : ℕ)
      → c.slot ≡ some m
      → d ≡ record { slot = none; sent = c.sent; taken = m ∷ c.taken }
      → Transfer c d

pub data Channelled : Channel → Type 0 where
  empty : Channelled (record { slot = none; sent = 0; taken = [] })
  next : {c d : Channel} → Channelled c → Transfer c d → Channelled d

-- The messages that the producer has written.
abbrev pub written : ℕ → Producer → ℕ
written n (Producer.ask i) = i
written n (Producer.write i) = i
written n (Producer.show i) = i + 1
written n (Producer.signal i) = i + 1
written n (Producer.nap i) = i + 1
written n Producer.gone = n

-- What a state of semaphore.c is as a channel: the semaphores and the places of the processes are
-- forgotten.
abbrev pub slot_of : ℕ → State → Option ℕ
slot_of n s = if written n s.producer == seen n s.consumer then none else some s.memory

unfoldable pub channel : ℕ → State → Channel
channel n s = record { slot = slot_of n s; sent = written n s.producer; taken = reads s.output }

abbrev pub Carries : ℕ → State → State → Type 0
Carries n s t = (channel n t ≡ channel n s) ⊎ Transfer (channel n s) (channel n t)

produce-Carries :
    (n : ℕ) (s t : State) (p : Producer)
    → s.producer ≡ p
    → Inv n s
    → produce n s p ≡ some t
    → Carries n s t
unfolding produce channel
produce-Carries n s t (Producer.ask i) at v e = inl (ground arith)
produce-Carries n s t (Producer.write i) at v e = inr (put (ground arith) (ground arith))
produce-Carries n s t p at v e = inl (ground arith)

consume-Carries :
    (n : ℕ) (s t : State) (c : Consumer)
    → s.consumer ≡ c
    → Inv n s
    → consume n s c ≡ some t
    → Carries n s t
unfolding consume channel
consume-Carries n s t (Consumer.ask i) at v e = inl (ground arith)
consume-Carries n s t (Consumer.show i) at v e = inr (take (i + 1) (ground arith) (ground arith))
consume-Carries n s t c at v e = inl (ground arith)

initial-Channelled : (n : ℕ) → Channelled (channel n (initial n))
unfolding channel
initial-Channelled zero = empty
initial-Channelled (suc n) = subst Channelled (ground arith) empty

advance :
    (n : ℕ) (s t : State) → Channelled (channel n s) → Carries n s t → Channelled (channel n t)
advance n s t c (inl same) = subst Channelled (sym same) c
advance n s t c (inr transfer) = next c transfer

Step-Carries : {n : ℕ} {s t : State} → Reach n s → Step n s t → Carries n s t
Step-Carries {n} {s} {t} r (by_producer e) = produce-Carries n s t s.producer refl (Reach-Inv r) e
Step-Carries {n} {s} {t} r (by_consumer e) = consume-Carries n s t s.consumer refl (Reach-Inv r) e

Reach-Channelled : {n : ℕ} {s : State} → Reach n s → Channelled (channel n s)
Reach-Channelled {n} start = initial-Channelled n
Reach-Channelled {n} (later {s} {t} r st) = advance n s t (Reach-Channelled r) (Step-Carries r st)

-- The processes of semaphore.c, in every interleaving, are a channel that holds one message at most:
-- each state that they reach stands for a state that the channel reaches, and each of their calls
-- leaves the channel alone, or puts the next message in where there is none, or takes out the one
-- that is there.
pub semaphore_refines_channel :
    {n : ℕ} {s : State}
    → Reach n s
    → Channelled (channel n s) × ((t : State) → Step n s t → Carries n s t)
semaphore_refines_channel r = (Reach-Channelled r, λ t st. Step-Carries r st)
