-- ===== src/Semaphore/Main.antt =====
-- semaphore.c: `main` as the calls that it makes.
use generic_tests.Common.{
  ℕ, zero, suc, ◌+◌, String, none, some, List, [], ◌∷◌, ltb, if◌then◌else◌, length,
}
use generic_tests.Common.Int.{ℤ, pos, minus_one, eqb_ℤ, pos_part}
use generic_tests.Sys.{
  Call, Prog, nat, int, str, text, ret, exit, emit, ask, skip, ◌>>◌, printf, perror, sys, setbuf,
  fork, sleep,
}
use generic_tests.Fork.{arg}
use generic_tests.Semaphore.Multi.{sem_op, multisem_op}

-- `if (… == -1) { perror(name); exit(1); }` around a call.
abbrev pub made : Call → String → (ℤ → Prog ℤ) → Prog ℤ
made c name next =
    ask c
      (λ a. if eqb_ℤ a.result minus_one then emit (perror name) (exit (pos 1)) else next a.result)

-- The loop of the producer; the text in shared memory is asked for where it is printed.
unfoldable pub produce_loop : ℕ → ℕ → Prog (Unit {0})
produce_loop zero i = skip
produce_loop (suc left) i =
    sem_op 0 minus_one
    >> (emit
        (sys "snprintf" (str "shared_memory" ∷ str "Message %d from Producer" ∷ nat (i + 1) ∷ []))
        (ask (sys "load" (str "shared_memory" ∷ [])) (λ a.
          emit (printf "Producer: Wrote '%s'\n" (text a.bytes ∷ []))
            (sem_op 1 (pos 1) >> emit (sleep 1) (produce_loop left (i + 1))))))

unfoldable pub consume_loop : ℕ → ℕ → Prog (Unit {0})
consume_loop zero i = skip
consume_loop (suc left) i =
    sem_op 1 minus_one
    >> ask (sys "load" (str "shared_memory" ∷ [])) (λ a.
      emit (printf "Consumer: Read '%s'\n" (text a.bytes ∷ []))
        (sem_op 0 (pos 1) >> emit (sleep 2) (consume_loop left (i + 1))))

abbrev pub setval : ℤ → ℕ → ℕ → Call
setval semid i v = sys "semctl" (int semid ∷ nat i ∷ str "SETVAL" ∷ nat v ∷ [])

-- The end of the consumer's branch.
abbrev pub release : ℤ → ℤ → ℤ → Prog ℤ
release shmid semid shared_memory = emit (sys "wait" []) (
    emit (sys "shmdt" (int shared_memory ∷ [])) (
      emit (sys "shmctl" (int shmid ∷ str "IPC_RMID" ∷ [])) (
        emit (sys "semctl" (int semid ∷ nat 0 ∷ str "IPC_RMID" ∷ []))
          (emit (printf "Resources cleaned up. Exiting.\n" []) (ret (pos 0))))))

-- The fork, and the two branches.
abbrev pub two_sides : ℕ → ℤ → ℤ → ℤ → Prog ℤ
two_sides numtrans shmid semid shared_memory = ask fork (λ a.
    if eqb_ℤ a.result (pos 0)
    then (produce_loop numtrans 0 >> exit (pos 0))
    else (consume_loop numtrans 0 >> release shmid semid shared_memory))

-- The scratch semaphores, 2 to 5. `overrun` is what a call that writes behind its array does.
abbrev pub scratch : Prog (Unit {0}) → ℤ → Prog (Unit {0})
scratch overrun semid = emit (setval semid 2 0) (
    emit (setval semid 3 0) (
      emit (setval semid 4 0)
        (emit (setval semid 5 0) (elim (multisem_op 2 6 (pos 1)) [ none ↦ overrun | some p ↦ p ]))))

unfoldable pub semaphore_main : (String → ℤ) → Prog (Unit {0}) → List String → Prog ℤ
semaphore_main atoi overrun argv =
    let numtrans = pos_part (if ltb 1 (length argv) then atoi (arg argv 1) else pos 5) in
    emit setbuf (
      made (sys "shmget" []) "shmget" (λ shmid.
        made (sys "shmat" (int shmid ∷ [])) "shmat" (λ shared_memory.
          made (sys "semget" (nat 6 ∷ [])) "semget" (λ semid. emit (setval semid 0 1) (
            emit (setval semid 1 0)
              (scratch overrun semid >> two_sides numtrans shmid semid shared_memory))))))
