-- ===== src/Small/Sample.antt =====
-- sample.c: a child with a stack of its own.
use generic_tests.Common.{
  ℕ, zero, suc, ◌+◌, ◌*◌, String, none, some, Option, List, [], ◌∷◌, if◌then◌else◌,
}
use generic_tests.Common.Int.{ℤ, pos, negsuc, is_neg, eqb_ℤ}
use generic_tests.Sys.{
  nat, int, str, Prog, ret, exit, emit, ask, say, skip, ◌>>◌, print, printf, fflush, sys,
}
use generic_tests.Clock.{negated}
use generic_tests.Message.{flush_all}
use generic_tests.Wait.{wait_loop, plain_formats}

-- n * i, which the source takes to fit.
abbrev pub times : ℤ → ℕ → ℤ
times (pos n) i = pos (n * i)
times (negsuc n) i = negated (suc n * i)

-- The loop from i on, for `left` rounds.
unfoldable pub multiples : ℕ → ℕ → ℤ → Prog (Unit {0})
multiples zero i n = skip
multiples (suc left) i n =
    print "%d * %d = %d\n" (int n ∷ nat i ∷ int (times n i) ∷ [])
    >> (flush_all >> multiples left (i + 1) n)

-- `fn`; what `atoi` of a null pointer does is a parameter.
unfoldable pub sample_fn : (String → ℤ) → Prog ℤ → Option String → Prog ℤ
sample_fn atoi null_read argument =
    emit (printf "\nINFO: This code is running under child process.\n" []) (elim argument [
      | none ↦ null_read
      | some a ↦ multiples 3 1 (atoi a) >> (print "\n" [] >> ret (pos 0))
    ])

-- The loop over the arguments, from the one of this index on.
unfoldable pub show_from : ℕ → List String → Prog (Unit {0})
show_from i [] = skip
show_from i (a ∷ rest) = emit (printf "Arg %d: %s" (nat i ∷ str a ∷ [])) (show_from (i + 1) rest)

-- From the answer of `clone` on: any child is waited for, and a wait that fails ends the loop.
abbrev pub wait_for_any : ℕ → Prog ℤ
wait_for_any fuel =
    wait_loop skip plain_formats (pos 0) fuel
    >> (say (sys "free" (str "pchild_stack" ∷ []))
        >> (print "INFO: Child process terminated.\n" [] >> ret (pos 0)))

-- `main`; the child runs `sample_fn` on `argv[1]`.
unfoldable pub sample_main : ℕ → List String → Prog ℤ
sample_main fuel argv = do
  print "Hello, World!\n" []
  show_from 1 (elim argv [ [] ↦ [] | name ∷ args ↦ args ])
  say fflush
  ask (sys "malloc" (nat 1048576 ∷ [])) (λ m.
      if eqb_ℤ m.result (pos 0)
      then emit (printf "ERROR: Unable to allocate memory.\n" []) (exit (pos 1))
      else ask (sys "clone" []) (λ c.
        if is_neg c.result
        then emit (printf "ERROR: Unable to create the child process.\n" []) (exit (pos 1))
        else wait_for_any fuel))
