-- ===== src/Semaphore.antt =====
-- semaphore.c: a producer and a consumer that take turns with two System V semaphores over one
-- shared buffer. `Multi` is the array of operations that `multisem_op` fills, the rest is the two
-- loops of `main`, and its end, as two processes over the shared state. A step is a call of the C
-- library, or of `sem_op`, which makes one.
pub mod Multi
pub mod Laws
pub mod Main
pub mod Channel
mod Tests
use generic_tests.Common.{
  ℕ, zero, suc, ◌+◌, ◌-◌, ◌<◌, ◌≡◌, Bool, true, false, Option, none, some, List, [], ◌∷◌, ltb,
  if◌then◌else◌,
}

-- A line on the terminal: `Producer: Wrote 'Message k …'` or `Consumer: Read 'Message k …'`.
pub data Line : Type 0 where
  wrote : ℕ → Line
  read : ℕ → Line
  cleaned : Line  -- `Resources cleaned up. Exiting.`

-- Where the producer stands, with its `i`.
pub data Producer : Type 0 where
  ask : ℕ → Producer  -- at `sem_op(semid, 0, -1)`
  write : ℕ → Producer  -- at `snprintf(shared_memory, …)`
  show : ℕ → Producer  -- at `printf("Producer: Wrote …")`
  signal : ℕ → Producer  -- at `sem_op(semid, 1, 1)`
  nap : ℕ → Producer  -- at `sleep(1)`
  gone : Producer  -- after `exit(0)`

pub data Consumer : Type 0 where
  ask : ℕ → Consumer  -- at `sem_op(semid, 1, -1)`
  show : ℕ → Consumer  -- at `printf("Consumer: Read …")`
  signal : ℕ → Consumer  -- at `sem_op(semid, 0, 1)`
  nap : ℕ → Consumer  -- at `sleep(2)`
  reap : Consumer  -- at `wait(NULL)`
  detach : Consumer  -- at `shmdt(shared_memory)`
  remove_memory : Consumer  -- at `shmctl(shmid, IPC_RMID, NULL)`
  remove_semaphores : Consumer  -- at `semctl(semid, 0, IPC_RMID)`
  notify : Consumer  -- at `printf("Resources cleaned up. …")`
  gone : Consumer  -- after `main` has returned

pub record State : Type 0 where
  pub empty : ℕ  -- semaphore 0
  pub full : ℕ  -- semaphore 1
  pub memory : ℕ  -- the number in the message in shared memory, or 0 before the first
  pub memory_removed : Bool
  pub semaphores_removed : Bool
  pub output : List Line  -- the newest first
  pub producer : Producer
  pub consumer : Consumer

-- `for (int i = …; i < numtrans; …)`: into the body, or past the loop.
abbrev pub produce_from : ℕ → ℕ → Producer
produce_from n i = if ltb i n then Producer.ask i else Producer.gone

abbrev pub consume_from : ℕ → ℕ → Consumer
consume_from n i = if ltb i n then Consumer.ask i else Consumer.reap

-- After `semctl(…, SETVAL, …)` and `fork`, as if the `multisem_op` between them had left the two
-- semaphores alone: it hands two operations to `semop` that it has not set (see Multi).
abbrev pub initial : ℕ → State
initial n = record {
  empty = 1;
  full = 0;
  memory = 0;
  memory_removed = false;
  semaphores_removed = false;
  output = [];
  producer = produce_from n 0;
  consumer = consume_from n 0;
}

-- One call of the producer; `none` where it blocks or has ended.
pub produce : ℕ → State → Producer → Option State
produce n s (Producer.ask i) =
    if ltb 0 s.empty
    then some (record s { empty = s.empty - 1; producer = Producer.write i })
    else none
produce n s (Producer.write i) = some (record s { memory = i + 1; producer = Producer.show i })
produce n s (Producer.show i) =
    some (record s { output = wrote s.memory ∷ s.output; producer = Producer.signal i })
produce n s (Producer.signal i) = some (record s { full = s.full + 1; producer = Producer.nap i })
produce n s (Producer.nap i) = some (record s { producer = produce_from n (i + 1) })
produce n s Producer.gone = none

-- One call of the consumer; `wait(NULL)` blocks until the producer has ended.
pub consume : ℕ → State → Consumer → Option State
consume n s (Consumer.ask i) =
    if ltb 0 s.full then some (record s { full = s.full - 1; consumer = Consumer.show i }) else none
consume n s (Consumer.show i) =
    some (record s { output = read s.memory ∷ s.output; consumer = Consumer.signal i })
consume n s (Consumer.signal i) = some (record s { empty = s.empty + 1; consumer = Consumer.nap i })
consume n s (Consumer.nap i) = some (record s { consumer = consume_from n (i + 1) })
consume n s Consumer.reap = elim s.producer [
  | Producer.gone ↦ some (record s { consumer = Consumer.detach })
  | _ ↦ none
]
consume n s Consumer.detach = some (record s { consumer = Consumer.remove_memory })
consume n s Consumer.remove_memory =
    some (record s { memory_removed = true; consumer = Consumer.remove_semaphores })
consume n s Consumer.remove_semaphores =
    some (record s { semaphores_removed = true; consumer = Consumer.notify })
consume n s Consumer.notify =
    some (record s { output = cleaned ∷ s.output; consumer = Consumer.gone })
consume n s Consumer.gone = none

-- The scheduler: any process that can go on may go on.
pub data Step (n : ℕ) (s t : State) : Type 0 where
  by_producer : produce n s s.producer ≡ some t → Step n s t
  by_consumer : consume n s s.consumer ≡ some t → Step n s t

pub data Reach (n : ℕ) : State → Type 0 where
  start : Reach n (initial n)
  later : {s t : State} → Reach n s → Step n s t → Reach n t
