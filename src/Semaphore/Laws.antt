-- ===== src/Semaphore/Laws.antt =====
-- semaphore.c: exclusion, order of the messages, no deadlock, an end.
use generic_tests.Common.{
  ℕ, zero, suc, ◌+◌, ◌*◌, ◌-◌, ◌≤◌, ◌<◌, ◌≡◌, refl, ◌⊎◌, inl, inr, none, some, List, [], ◌∷◌, arith,
  Option-cases,
}
use generic_tests.Semaphore.{
  Line, wrote, read, cleaned, Producer, Consumer, State, initial, produce_from, consume_from,
  produce, consume, Step, by_producer, by_consumer, Reach, start, later,
}

-- Between `sem_op(…, -1)` and the `sem_op(…, 1)` that follows it.
abbrev pub producing : Producer → ℕ
producing (Producer.write i) = 1
producing (Producer.show i) = 1
producing (Producer.signal i) = 1
producing _ = 0

abbrev pub consuming : Consumer → ℕ
consuming (Consumer.show i) = 1
consuming (Consumer.signal i) = 1
consuming _ = 0

-- The messages that have been signalled, and those that have been handed back.
abbrev pub produced : ℕ → Producer → ℕ
produced n (Producer.nap i) = i + 1
produced n Producer.gone = n
produced n (Producer.ask i) = i
produced n (Producer.write i) = i
produced n (Producer.show i) = i
produced n (Producer.signal i) = i

abbrev pub consumed : ℕ → Consumer → ℕ
consumed n (Consumer.ask i) = i
consumed n (Consumer.show i) = i
consumed n (Consumer.signal i) = i
consumed n (Consumer.nap i) = i + 1
consumed n _ = n

-- The messages that have been read.
abbrev pub seen : ℕ → Consumer → ℕ
seen n (Consumer.signal i) = i + 1
seen n c = consumed n c

-- k, …, 2, 1
abbrev pub down : ℕ → List ℕ
down zero = []
down (suc k) = suc k ∷ down k

abbrev pub reads : List Line → List ℕ
reads [] = []
reads (wrote m ∷ l) = reads l
reads (read m ∷ l) = m ∷ reads l
reads (cleaned ∷ l) = reads l

abbrev pub InLoop : ℕ → Producer → Type 0
InLoop n (Producer.ask i) = i < n
InLoop n (Producer.write i) = i < n
InLoop n (Producer.show i) = i < n
InLoop n (Producer.signal i) = i < n
InLoop n (Producer.nap i) = i < n
InLoop n Producer.gone = Unit

abbrev pub InLoopC : ℕ → Consumer → Type 0
InLoopC n (Consumer.ask i) = i < n
InLoopC n (Consumer.show i) = i < n
InLoopC n (Consumer.signal i) = i < n
InLoopC n (Consumer.nap i) = i < n
InLoopC n _ = Unit

-- What is in memory once the producer has written, and as long as a message waits.
abbrev pub IsWritten : ℕ → State → Producer → Type 0
IsWritten n s (Producer.show i) = s.memory ≡ i + 1
IsWritten n s (Producer.signal i) = s.memory ≡ i + 1
IsWritten n s p = 0 < s.full + consuming s.consumer → s.memory ≡ produced n p

pub record Inv (n : ℕ) (s : State) : Type 0 where
  pub balance : s.empty + s.full + producing s.producer + consuming s.consumer ≡ 1
  pub flow : produced n s.producer ≡ consumed n s.consumer + s.full + consuming s.consumer
  pub memory : IsWritten n s s.producer
  pub order : reads s.output ≡ down (seen n s.consumer)
  pub in_loop : InLoop n s.producer
  pub in_loop_c : InLoopC n s.consumer

initial-Inv : (n : ℕ) → Inv n (initial n)
initial-Inv zero = record {
  balance = refl;
  flow = refl;
  memory = λ h. absurd (omega arith);
  order = refl;
  in_loop = tt;
  in_loop_c = tt;
}
initial-Inv (suc n) = ground arith

produce-Inv :
    (n : ℕ) (s t : State) (p : Producer)
    → s.producer ≡ p
    → Inv n s
    → produce n s p ≡ some t
    → Inv n t
unfolding produce
produce-Inv n s t (Producer.ask i) at v e = ground arith
produce-Inv n s t p at v e = ground arith

consume-Inv :
    (n : ℕ) (s t : State) (c : Consumer)
    → s.consumer ≡ c
    → Inv n s
    → consume n s c ≡ some t
    → Inv n t
unfolding consume
consume-Inv n s t (Consumer.ask i) at v e = ground arith
consume-Inv n s t c at v e = ground arith

pub Reach-Inv : {n : ℕ} {s : State} → Reach n s → Inv n s
Reach-Inv {n} start = initial-Inv n
Reach-Inv {n} (later {s} {t} r (by_producer e)) = produce-Inv n s t s.producer refl (Reach-Inv r) e
Reach-Inv {n} (later {s} {t} r (by_consumer e)) = consume-Inv n s t s.consumer refl (Reach-Inv r) e

-- In every interleaving, the producer and the consumer are never both between their
-- `sem_op(…, -1)` and `sem_op(…, 1)`.
pub semaphore_exclusion :
    {n : ℕ} {s : State} → Reach n s → producing s.producer + consuming s.consumer ≤ 1
semaphore_exclusion r = omega (arith, (Reach-Inv r).balance)

-- In every interleaving the consumer has read the messages 1, 2, 3, … in this order, each once and
-- none torn; when its `main` has returned it has read all `n`.
pub semaphore_order :
    {n : ℕ} {s : State}
    → Reach n s
    → (reads s.output ≡ down (seen n s.consumer))
      × (s.consumer ≡ Consumer.gone → reads s.output ≡ down n)
semaphore_order {n} {s} r = ((Reach-Inv r).order, λ e. ground (arith, (Reach-Inv r).order))

-- Where neither process can go on, both have ended.
stuck :
    (n : ℕ) (s : State) (p : Producer) (c : Consumer)
    → s.producer ≡ p
    → s.consumer ≡ c
    → Inv n s
    → produce n s p ≡ none
    → consume n s c ≡ none
    → (p ≡ Producer.gone) × (c ≡ Consumer.gone)
unfolding produce consume
stuck n s (Producer.ask i) (Consumer.ask j) at_p at_c v e f = ground arith
stuck n s p c at_p at_c v e f = ground arith

-- No deadlock: in every interleaving some process can go on, or both have ended.
pub semaphore_progress :
    {n : ℕ} {s : State}
    → Reach n s
    → ((s.producer ≡ Producer.gone) × (s.consumer ≡ Consumer.gone)) ⊎ ((t : State) × Step n s t)
semaphore_progress {n} {s} r = elim (Option-cases (produce n s s.producer)) [
  | inr (t, e) ↦ inr (t, by_producer e)
  | inl e ↦ elim (Option-cases (consume n s s.consumer)) [
    | inr (t, f) ↦ inr (t, by_consumer f)
    | inl f ↦ inl (stuck n s s.producer s.consumer refl refl (Reach-Inv r) e f)
  ]
]

-- The calls that are left to a process.
abbrev pub left_p : ℕ → Producer → ℕ
left_p n (Producer.ask i) = 5 * (n - i)
left_p n (Producer.write i) = 5 * (n - i) - 1
left_p n (Producer.show i) = 5 * (n - i) - 2
left_p n (Producer.signal i) = 5 * (n - i) - 3
left_p n (Producer.nap i) = 5 * (n - i) - 4
left_p n Producer.gone = 0

abbrev pub left_c : ℕ → Consumer → ℕ
left_c n (Consumer.ask i) = 4 * (n - i) + 5
left_c n (Consumer.show i) = 4 * (n - i) + 4
left_c n (Consumer.signal i) = 4 * (n - i) + 3
left_c n (Consumer.nap i) = 4 * (n - i) + 2
left_c n Consumer.reap = 5
left_c n Consumer.detach = 4
left_c n Consumer.remove_memory = 3
left_c n Consumer.remove_semaphores = 2
left_c n Consumer.notify = 1
left_c n Consumer.gone = 0

produce-left :
    (n : ℕ) (s t : State) (p : Producer)
    → InLoop n p
    → produce n s p ≡ some t
    → (left_p n t.producer + 1 ≡ left_p n p) × (t.consumer ≡ s.consumer)
unfolding produce
produce-left n s t (Producer.ask i) h e = ground arith
produce-left n s t p h e = ground arith

consume-left :
    (n : ℕ) (s t : State) (c : Consumer)
    → InLoopC n c
    → consume n s c ≡ some t
    → (left_c n t.consumer + 1 ≡ left_c n c) × (t.producer ≡ s.producer)
unfolding consume
consume-left n s t (Consumer.ask i) h e = ground arith
consume-left n s t c h e = ground arith

-- The number of calls made so far.
abbrev pub steps : {n : ℕ} {s : State} → Reach n s → ℕ
steps start = 0
steps (later r st) = suc (steps r)

initial-left : (n : ℕ) → left_p n (produce_from n 0) + left_c n (consume_from n 0) ≡ 9 * n + 5
initial-left zero = refl
initial-left (suc n) = ground arith

-- Every interleaving ends: between the `fork` and their exits the two processes make at most
-- `9 * n + 5` calls, a `sem_op` counted as one, and each call leaves one less to be made.
pub semaphore_length :
    {n : ℕ} {s : State} (r : Reach n s)
    → steps r + left_p n s.producer + left_c n s.consumer ≡ 9 * n + 5
semaphore_length {n} start = omega (arith, initial-left n)
semaphore_length {n} (later {s} {t} r (by_producer e)) =
    let (fewer, same) = produce-left n s t s.producer (Reach-Inv r).in_loop e in
    rw same (omega (arith, fewer, semaphore_length r))
semaphore_length {n} (later {s} {t} r (by_consumer e)) =
    let (fewer, same) = consume-left n s t s.consumer (Reach-Inv r).in_loop_c e in
    rw same (omega (arith, fewer, semaphore_length r))
