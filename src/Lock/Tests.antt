-- ===== src/Lock/Tests.antt =====
-- A word of memory, held by a thread that has died unnoticed.
use text.Mathlib.Text.{◌==◌ as is_text}
use generic_tests.Common.{ℕ, ◌≡◌, refl, false, arith, List, [], ◌∷◌, ◌==◌, if◌then◌else◌}
use generic_tests.Sys.{Arg, Call, Answer}
use generic_tests.Sys.Run.{spun}
use generic_tests.Sys.Serve.{Server}
use generic_tests.Lock.{thread2}
use generic_tests.Lock.Laws.{gives, IsWord, recoverable, outcome, first_end, thread2_lem}

abbrev written_word : List Arg → ℕ → ℕ
written_word (Arg.str target ∷ Arg.nat v ∷ []) s = v
written_word args s = s

abbrev exchanged : List Arg → ℕ → Answer × ℕ
exchanged (Arg.str target ∷ Arg.nat old ∷ Arg.nat new ∷ []) s =
    if s == 0 then (gives 1, new) else (gives 0, s)
exchanged args s = (gives 0, s)

abbrev memory : Server ℕ
memory (Call.sys name args) s =
    if is_text name "atomic_load"
    then (gives s, s)
    else if is_text name "atomic_store"
    then (gives 0, written_word args s)
    else if is_text name "atomic_compare_exchange_weak"
    then exchanged args s
    else (gives 0, s)
memory c s = (gives 0, s)

memory-IsWord : IsWord memory (λ s. s) false
memory-IsWord = record {
  loads = λ s. refl;
  stores = λ v s. refl;
  taken = λ new s e. rw e refl;
  exchanges = λ new s e works. rw e refl;
  fails = λ new s e failing. absurd (ground arith);
  printed = λ format args s. refl;
  slept = λ n s. refl;
  flushed = λ args s. refl;
  asked = λ args s. refl;
  waited = λ args s. refl;
}

thread2_example :
    ((outcome memory (λ s. s) false memory-IsWord (thread2 9) 77).0
      ≡ (if recoverable 77 then first_end memory (λ s. s) false memory-IsWord else spun))
    × ((outcome memory (λ s. s) false memory-IsWord (thread2 9) 77).1
        ≡ (if recoverable 77 then 0 else 77))
thread2_example = thread2_lem memory (λ s. s) false memory-IsWord 8 77
