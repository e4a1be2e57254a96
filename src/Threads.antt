-- ===== src/Threads.antt =====
-- The programs that run threads: pthread.c, forkmulti.c and processesgalore.c. Here are the text
-- `pad`, which is to indent each thread's lines, and the loops that create and join threads.
pub mod Pthread
pub mod ForkMulti
pub mod Galore
pub mod Combined
pub mod Fallen
pub mod Processes
pub mod Children
pub mod Laws
mod Tests
use generic_tests.Common.{
  ℕ, zero, suc, ◌+◌, String, List, [], ◌∷◌, ltb, ◌==◌, if◌then◌else◌, set, replicate, ◌++◌,
}
use generic_tests.Common.Int.{ℤ, pos, minus_one, eqb_ℤ}
use generic_tests.Sys.{int, nat, text, Call, Prog, exit, emit, ask, skip}

-- strlen, and the bytes that `%s` prints.
abbrev pub strlen : List ℕ → ℕ
strlen [] = 0
strlen (c ∷ cs) = if c == 0 then 0 else suc (strlen cs)

abbrev pub text_of : List ℕ → List ℕ
text_of [] = []
text_of (c ∷ cs) = if c == 0 then [] else c ∷ text_of cs

-- `char pad[]="           ";`: eleven spaces and the NUL.
abbrev pub spaces : List ℕ
spaces = replicate 11 b' ' ++ 0 ∷ []

-- `if (i < strlen(pad)) pad[i]=0;`
unfoldable pub cut : List ℕ → ℕ → List ℕ
cut pad i = if ltb i (strlen pad) then set pad i 0 else pad

-- `if (i < strlen(pad)) pad[i]=' ';`
unfoldable pub restore : List ℕ → ℕ → List ℕ
restore pad i = if ltb i (strlen pad) then set pad i b' ' else pad

-- The loop over `pthread_create`, where the thread of index i is called `first` + i in the message.
unfoldable pub create_loop : ℕ → ℕ → ℕ → Prog (Unit {0})
create_loop first zero i = skip
create_loop first (suc left) i = ask (Call.pthread_create i) (λ a.
    if eqb_ℤ a.result (pos 0)
    then create_loop first left (i + 1)
    else emit (Call.printf "Error: Unable to create thread %d\n" (nat (i + first) ∷ []))
        (exit minus_one))

abbrev pub emit_all {ℓ} : {A : Type ℓ} → List Call → Prog A → Prog A
emit_all [] p = p
emit_all (c ∷ cs) p = emit c (emit_all cs p)

-- The loop over `pthread_join`, with what a program does after its line; the answer is
-- `*threadstatus`.
unfoldable pub join_loop : List Call → ℕ → ℕ → List ℕ → Prog (Unit {0})
join_loop tail zero i pad = skip
join_loop tail (suc left) i pad =
    let shown = cut pad i in
    ask (Call.pthread_join i) (λ a.
      emit
        (Call.printf "Joined with thread %d which exited 0x%x %s\n"
          (nat i ∷ int a.result ∷ text (text_of shown) ∷ []))
        (emit_all tail (join_loop tail left (i + 1) (restore shown i))))
