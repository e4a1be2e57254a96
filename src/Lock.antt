-- ===== src/Lock.antt =====
-- threadlockfail.c: a lock whose owner dies, and a second thread that takes it over.
pub mod Laws
mod Tests
use generic_tests.Common.{
  ℕ, zero, suc, ◌/◌, ◌%◌, ◌^◌, String, Bool, List, [], ◌∷◌, ◌==◌, if◌then◌else◌,
}
use generic_tests.Common.Int.{ℤ, pos, eqb_ℤ, pos_part}
use generic_tests.Sys.{
  nat, str, Call, Prog, ret, spin, emit, ask, say, skip, ◌>>=◌, ◌>>◌, printf, sys, sleep,
  pthread_create, pthread_join,
}

-- `atomic_load`, `atomic_store` and `atomic_compare_exchange_weak` on `lock.futex`; the last answers
-- with whether it has exchanged.
abbrev pub atomic_load : Call
atomic_load = sys "atomic_load" (str "lock.futex" ∷ [])

abbrev pub atomic_store : ℕ → Call
atomic_store v = sys "atomic_store" (str "lock.futex" ∷ nat v ∷ [])

abbrev pub compare_exchange : ℕ → Call
compare_exchange new = sys "atomic_compare_exchange_weak" (str "lock.futex" ∷ nat 0 ∷ nat new ∷ [])

abbrev pub futex_wait : ℕ → Call
futex_wait val = sys "futex" (str "lock.futex" ∷ str "FUTEX_WAIT" ∷ nat val ∷ [])

abbrev pub futex_wake : ℕ → Call
futex_wake n = sys "futex" (str "lock.futex" ∷ str "FUTEX_WAKE" ∷ nat n ∷ [])

abbrev pub set_robust : Call
set_robust = sys "set_robust_list" (str "robust_head" ∷ [])

-- `pointer = &target`
abbrev pub link : String → String → Call
link pointer target = sys "link" (str pointer ∷ str target ∷ [])

-- `printf(…); fflush(file);`, where `file` is NULL in the threads.
abbrev pub tell : String → Prog (Unit {0})
tell line = emit (printf line []) (say (sys "fflush" (str "NULL" ∷ [])))

-- The loop of `lock_acquire`, which sets `expected` back to 0 in each round.
unfoldable pub acquire_loop : ℕ → ℕ → Prog (Unit {0})
acquire_loop zero tid = spin
acquire_loop (suc fuel) tid =
    let rest = acquire_loop fuel tid in
    ask (compare_exchange tid)
      (λ c. if eqb_ℤ c.result (pos 0) then emit (futex_wait 0) rest else skip)

unfoldable pub lock_acquire : ℕ → Prog (Unit {0})
lock_acquire fuel = ask (sys "pthread_self" []) (λ t.
    acquire_loop fuel (pos_part t.result % 2 ^ 32)
    >> emit (link "lock.list.next" "robust_head.list")
        (say (link "robust_head.list.next" "lock.list")))

abbrev pub lock_release : Prog (Unit {0})
lock_release = emit (atomic_store 0) (say (futex_wake 1))

-- FUTEX_OWNER_DIED is bit 30.
abbrev pub owner_died : ℕ → Bool
owner_died val = val / 2 ^ 30 % 2 == 1

-- `thread1`, which ends without a release.
unfoldable pub thread1 : ℕ → Prog (Unit {0})
thread1 fuel = do
  tell "[t1] Registering robust list and acquiring lock\n"
  say set_robust
  lock_acquire fuel
  tell "[t1] Lock acquired, now simulating crash...\n"
  say (sleep 1)
  tell "[t1] Exiting without releasing lock!\n"

-- What `thread2` does about a dead owner, and then.
abbrev pub clear_dead : ℕ → Prog (Unit {0})
clear_dead val =
    if owner_died val
    then (tell "[t2] Detected owner died (FUTEX_OWNER_DIED). Cleaning up.\n"
        >> say (atomic_store 0))
    else skip

abbrev pub use_lock : ℕ → Prog (Unit {0})
use_lock fuel =
    lock_acquire fuel
    >> (tell "[t2] Successfully recovered and acquired lock.\n"
        >> (lock_release >> tell "[t2] lock released\n"))

unfoldable pub thread2 : ℕ → Prog (Unit {0})
thread2 fuel = emit (sleep 10) (
    tell "[t2] Trying to acquire lock after t1 died\n"
    >> ask atomic_load (λ a. clear_dead (pos_part a.result) >> use_lock fuel))

-- `main`; a thread is joined before the next is made.
unfoldable pub lockfail_main : Prog ℤ
lockfail_main = do
  say (pthread_create 0)
  say (pthread_join 0)
  say (pthread_create 1)
  say (pthread_join 1)
  ret (pos 0)
