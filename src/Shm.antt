-- ===== src/Shm.antt =====
-- shmtest.c: a writer and a reader of a shared segment. A load from the segment is a call that the
-- environment answers, since the other process may have stored there; a store is a call too.
pub mod Laws
mod Tests
use generic_tests.Common.{
  ℕ, zero, suc, ◌+◌, ◌-◌, ◌&&◌, String, List, [], ◌∷◌, ◌++◌, ltb, leb, if◌then◌else◌, replicate,
}
use generic_tests.Common.Int.{ℤ, pos, minus_one, eqb_ℤ}
use generic_tests.Sys.{
  nat, int, str, text, Call, Prog, ret, spin, emit, ask, ◌>>=◌, ◌>>◌, print_flush, printf, fflush,
  perror, sys, sleep, fork, setbuf,
}
use generic_tests.Threads.{strlen, text_of}

-- What `fill_buffer` leaves: the buffer, its result, and its static `ch`.
pub record Filled : Type 0 where
  pub buffer : List ℕ
  pub count : ℕ
  pub ch : ℕ

-- The two tests on `ch`, which stand behind the `memset`.
abbrev pub wrap : ℕ → ℕ
wrap ch =
    let c = if ltb 122 ch then 65 else ch in
    if (leb 65 c && leb c 122) && (leb 91 c && leb c 96) then 65 else c

unfoldable pub fill_buffer : ℕ → ℕ → Filled
fill_buffer ch size =
    let buffer = replicate (size - 1) ch ++ 0 ∷ [] in
    record { buffer = buffer; count = strlen buffer; ch = wrap ch + 1 }

-- BUF_SIZE, DOITERS
abbrev pub buf_size : ℕ
buf_size = 1024

abbrev pub do_iters : ℕ
do_iters = 2

-- A load and a store of a field of the segment.
abbrev pub load : String → Call
load field = sys "load" (str field ∷ [])

abbrev pub store_int : String → ℕ → Call
store_int field v = sys "store" (str field ∷ nat v ∷ [])

-- The loop of the writer.
unfoldable pub write_loop : ℕ → ℕ → Prog (Unit {0})
write_loop zero ch = ret tt
write_loop (suc left) ch =
    let filled = fill_buffer ch buf_size in
    emit (sys "store" (str "buf" ∷ text filled.buffer ∷ [])) (
      emit (store_int "cnt" filled.count) (
        emit (store_int "complete" 0) (
          emit
            (printf "Writing Process: Shared Memory Write: Wrote %d bytes\n"
              (nat filled.count ∷ []))
            (emit fflush (emit (sleep 1) (write_loop left filled.ch))))))

-- `perror(…); return code;`
abbrev pub failed : String → ℕ → Prog ℤ
failed message code = emit (perror message) (ret (pos code))

abbrev pub shmget : ℕ → String → Call
shmget key flags = sys "shmget" (nat key ∷ str flags ∷ [])

-- From the writer's attachment on.
unfoldable pub write_segment : ℤ → Prog ℤ
write_segment shmid = ask (sys "shmat" (int shmid ∷ [])) (λ a.
    if eqb_ℤ a.result minus_one
    then failed "Shared memory attach" 1
    else emit
        (printf "Writing Process: shmid = 0x%x shmaddr = 0x%p\n" (int shmid ∷ int a.result ∷ []))
        (emit fflush (
          write_loop do_iters 65
          >> emit (printf "Writing Process: Wrote %d times\n" (nat do_iters ∷ [])) (
              emit fflush (
                emit (store_int "complete" 1) (
                  ask (sys "shmdt" (int a.result ∷ [])) (λ b.
                    if eqb_ℤ b.result minus_one
                    then failed "shmdt" 1
                    else ask (sys "shmctl" (int shmid ∷ str "IPC_RMID" ∷ [])) (λ c.
                      if eqb_ℤ c.result minus_one
                      then failed "shmctl" 1
                      else emit (printf "Writing Process: Complete\n" [])
                          (emit fflush (ret (pos 0)))))))))))

-- The branch of the parent. The third `shmget` is to fail.
unfoldable pub writer : Prog ℤ
writer = ask (shmget 0x1234 "IPC_CREAT") (λ a.
    if eqb_ℤ a.result minus_one
    then failed "Shared memory get of key1 failed" 1
    else ask (shmget 0x5678 "IPC_CREAT") (λ b.
      if eqb_ℤ b.result minus_one
      then failed "Shared memory get of key2 failed" 2
      else ask (shmget 0x5678 "IPC_CREAT|IPC_EXCL") (λ c.
        if eqb_ℤ c.result minus_one
        then write_segment a.result
        else failed "Shared memory get of key2 a second time succeeded" 2)))

-- The end of the reader.
abbrev pub read_done : ℤ → Prog ℤ
read_done shmp = emit (printf "Reading Process: Reading Done, Detaching Shared Memory\n" []) (
    emit fflush (
      ask (sys "shmdt" (int shmp ∷ [])) (λ a.
        if eqb_ℤ a.result minus_one
        then failed "shmdt" 1
        else emit (printf "Reading Process: Complete\n" []) (emit fflush (ret (pos 0))))))

-- `while (shmp->complete != 1)`, on fuel.
unfoldable pub read_loop : ℤ → ℕ → Prog ℤ
read_loop shmp zero = spin
read_loop shmp (suc fuel) =
    let rest = read_loop shmp fuel in
    ask (load "complete") (λ a.
      if eqb_ℤ a.result (pos 1)
      then read_done shmp
      else ask (load "buf") (λ b.
        emit (printf "segment contains : \n\"%s\"\n" (text (text_of b.bytes) ∷ [])) (
          emit fflush (
            ask (load "cnt") (λ c.
              if eqb_ℤ c.result minus_one
              then failed "read" 1
              else ask (load "cnt") (λ d.
                emit (printf "Reading Process: Shared Memory: Read %d bytes\n" (int d.result ∷ []))
                  (emit fflush (emit (sleep 1) rest))))))))

-- The branch of the child.
unfoldable pub reader : ℕ → Prog ℤ
reader fuel = ask (shmget 0x1234 "IPC_CREAT") (λ a.
    if eqb_ℤ a.result minus_one
    then failed "Shared memory" 1
    else ask (sys "shmat" (int a.result ∷ [])) (λ b.
      if eqb_ℤ b.result minus_one
      then failed "Shared memory attach" 1
      else emit
          (printf "Reading Process: shmid = 0x%x shmaddr = 0x%p\n"
            (int a.result ∷ int b.result ∷ []))
          (emit fflush (read_loop b.result fuel))))

-- `main`; after a `fork` that fails it returns 0.
unfoldable pub shmtest_main : ℕ → Prog ℤ
shmtest_main fuel = emit setbuf (
    ask fork (λ a.
      if eqb_ℤ a.result minus_one
      then emit (perror "fork") (ret (pos 0))
      else if eqb_ℤ a.result (pos 0)
      then reader fuel
      else writer))
