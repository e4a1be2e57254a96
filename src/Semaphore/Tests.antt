-- ===== src/Semaphore/Tests.antt =====
-- Runs of semaphore.c.
use generic_tests.Common.{ℕ, ◌≡◌, ◌+◌, ◌*◌, ◌≤◌, ◌<◌, refl, ◌⊎◌, none, some, [], ◌∷◌, false, arith}
use generic_tests.Common.Int.{pos}
use generic_tests.Semaphore.{
  wrote, read, Producer, Consumer, State, produce, consume, Step, by_producer, by_consumer, Reach,
  start, later,
}
use generic_tests.Semaphore.Laws.{
  producing, consuming, reads, down, seen, steps, left_p, left_c, semaphore_exclusion,
  semaphore_order, semaphore_progress, semaphore_length,
}
use generic_tests.Semaphore.Channel.{Channelled, channel, Carries, semaphore_refines_channel}
use generic_tests.Semaphore.Multi.{multisem_array, operations, multisem_defined}

-- One message of one is written, signalled, taken and read.
abbrev exchange : State
exchange = record {
  empty = 0;
  full = 0;
  memory = 1;
  memory_removed = false;
  semaphores_removed = false;
  output = read 1 ∷ wrote 1 ∷ [];
  producer = Producer.nap 0;
  consumer = Consumer.signal 0;
}

exchange-Reach : Reach 1 exchange
unfolding produce consume
exchange-Reach =
    later
      (later
        (later
          (later (later (later start (by_producer refl)) (by_producer refl)) (by_producer refl))
          (by_producer refl))
        (by_consumer refl))
      (by_consumer refl)

semaphore_exclusion_example : producing exchange.producer + consuming exchange.consumer ≤ 1
semaphore_exclusion_example = semaphore_exclusion exchange-Reach

semaphore_order_example :
    (reads exchange.output ≡ down (seen 1 exchange.consumer))
    × (exchange.consumer ≡ Consumer.gone → reads exchange.output ≡ down 1)
semaphore_order_example = semaphore_order exchange-Reach

semaphore_progress_example :
    ((exchange.producer ≡ Producer.gone) × (exchange.consumer ≡ Consumer.gone))
    ⊎ ((t : State) × Step 1 exchange t)
semaphore_progress_example = semaphore_progress exchange-Reach

semaphore_length_example :
    steps exchange-Reach + left_p 1 exchange.producer + left_c 1 exchange.consumer ≡ 9 * 1 + 5
semaphore_length_example = semaphore_length exchange-Reach

-- The call of `main`, `multisem_op(semid,2,6,1)`.
multisem_defined_example :
    ((◌≡◌ {A = ℕ} 2 0) → multisem_array 2 6 (pos 1) ≡ some (operations 6 0 (pos 1)))
    × (0 < 2 → multisem_array 2 6 (pos 1) ≡ none)
multisem_defined_example = multisem_defined 2 6 (pos 1) (omega arith)

semaphore_refines_channel_example :
    Channelled (channel 1 exchange) × ((t : State) → Step 1 exchange t → Carries 1 exchange t)
semaphore_refines_channel_example = semaphore_refines_channel exchange-Reach
