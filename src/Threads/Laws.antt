-- ===== src/Threads/Laws.antt =====
-- The indentation of the lines, and the processes and threads that forkmulti.c and
-- processesgalore.c come to.
use generic_tests.Common.{
  ℕ, zero, suc, ◌+◌, ◌≡◌, refl, ap, List, [], ◌∷◌, ◌++◌, arith, length, replicate, if◌then◌else◌,
  ltb,
}
use generic_tests.Common.Int.{ℤ}
use generic_tests.Sys.{Call, Answer, Prog, pthread_join, printf, int, nat, text}
use generic_tests.Sys.Run.{Event, did, got, done, add, run}
use generic_tests.Threads.{text_of, spaces, cut, restore, emit_all, join_loop}

-- The answers of `pthread_join`, and the lines for them, with no indentation.
abbrev pub joined : ℤ → Answer
joined r = record { result = r; status = 0; bytes = [] }

abbrev pub joins : List ℤ → List Answer → List Answer
joins [] rest = rest
joins (r ∷ rs) rest = joined r ∷ joins rs rest

abbrev pub did_all : List Call → List Event → List Event
did_all [] es = es
did_all (c ∷ cs) es = did c ∷ did_all cs es

abbrev pub join_events : List Call → ℕ → List ℤ → List Event
join_events tail i [] = []
join_events tail i (r ∷ rs) =
    got (pthread_join i) (joined r)
    ∷ did (printf "Joined with thread %d which exited 0x%x %s\n" (nat i ∷ int r ∷ text [] ∷ []))
    ∷ did_all tail (join_events tail (i + 1) rs)

run-emit_all {ℓ} :
    {A : Type ℓ} (cs : List Call) (p : Prog A) (s : List Answer)
    → run (emit_all cs p) s
      ≡ record { events = did_all cs (run p s).events; outcome = (run p s).outcome }
unfolding run
run-emit_all [] p s = refl
run-emit_all (c ∷ cs) p s = ap (add (did c)) (run-emit_all cs p s)

cut_empty : (pad : List ℕ) (i : ℕ) → cut (0 ∷ pad) i ≡ 0 ∷ pad
unfolding cut
cut_empty pad i = ground arith

restore_empty : (pad : List ℕ) (i : ℕ) → restore (0 ∷ pad) i ≡ 0 ∷ pad
unfolding restore
restore_empty pad i = ground arith

-- Once the first byte is NUL, the text stays empty.
join_loop_empty :
    (tail : List Call) (i : ℕ) (rs : List ℤ) (pad : List ℕ) (rest : List Answer)
    → run (join_loop tail (length rs) i (0 ∷ pad)) (joins rs rest)
      ≡ record { events = join_events tail i rs; outcome = done tt rest }
unfolding join_loop run
join_loop_empty tail i [] pad rest = refl
join_loop_empty tail i (r ∷ rs) pad rest = rw (
  cut_empty pad i,
  restore_empty pad i,
  run-emit_all tail (join_loop tail (length rs) (i + 1) (0 ∷ pad)) (joins rs rest),
  join_loop_empty tail (i + 1) rs pad rest,
)

-- Every line of the joining loop in pthread.c, forkmulti.c and processesgalore.c is printed with an
-- empty indentation: the first round cuts `pad` at its first byte, and the test before the repair
-- compares with the length of the text that is cut.
pub join_never_indents :
    (tail : List Call) (rs : List ℤ) (rest : List Answer)
    → run (join_loop tail (length rs) 0 spaces) (joins rs rest)
      ≡ record { events = join_events tail 0 rs; outcome = done tt rest }
unfolding join_loop run cut restore
join_never_indents tail [] rest = refl
join_never_indents tail (r ∷ rs) rest = rw (
  run-emit_all tail (join_loop tail (length rs) 1 (0 ∷ replicate 10 b' ' ++ 0 ∷ []))
      (joins rs rest),
  join_loop_empty tail 1 rs (replicate 10 b' ' ++ 0 ∷ []) rest,
)

-- A thread's own line is indented by its number, up to eleven.
pub thread_indents :
    (thread_id : ℕ)
    → text_of (cut spaces thread_id) ≡ replicate (if ltb thread_id 11 then thread_id else 11) b' '
unfolding cut
thread_indents zero = refl
thread_indents (suc zero) = refl
thread_indents (suc (suc zero)) = refl
thread_indents (suc (suc (suc zero))) = refl
thread_indents (suc (suc (suc (suc zero)))) = refl
thread_indents (suc (suc (suc (suc (suc zero))))) = refl
thread_indents (suc (suc (suc (suc (suc (suc zero)))))) = refl
thread_indents (suc (suc (suc (suc (suc (suc (suc zero))))))) = refl
thread_indents (suc (suc (suc (suc (suc (suc (suc (suc zero)))))))) = refl
thread_indents (suc (suc (suc (suc (suc (suc (suc (suc (suc zero))))))))) = refl
thread_indents (suc (suc (suc (suc (suc (suc (suc (suc (suc (suc zero)))))))))) = refl
thread_indents (suc (suc (suc (suc (suc (suc (suc (suc (suc (suc (suc n))))))))))) = ground arith
