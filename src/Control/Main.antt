-- ===== src/Control/Main.antt =====
-- `makethreads`, `fork_demon`, `fork_and_wait` and `main`.
use generic_tests.Common.{ℕ, zero, suc, ◌+◌, [], ◌∷◌, if◌then◌else◌}
use generic_tests.Common.Int.{ℤ, pos, minus_one, eqb_ℤ}
use generic_tests.Sys.{
  nat, str, Prog, ret, exit, killed, spin, emit, ask, say, skip, ◌>>=◌, ◌>>◌, print, printf, perror,
  sys, read, fork, waitpid, setbuf, pthread_join,
}
use generic_tests.Wait.{plain_formats, wait_loop, wait_failed}
use generic_tests.Threads.{create_loop}
use generic_tests.Control.{char_of, byte_at}

-- The loop over `pthread_join`. The answer has the number behind the pointer that the thread has
-- left; after `pthread_exit(NULL)` it has none, and reading it is a fault (SIGSEGV).
unfoldable pub join_all : ℕ → ℕ → Prog (Unit {0})
join_all zero i = skip
join_all (suc left) i = ask (pthread_join i) (λ a. elim a.bytes [
  | [] ↦ killed 11
  | b ∷ bs ↦
      emit (printf "Joined with thread %d which exited 0x%x\n" (nat i ∷ nat b ∷ []))
        (emit (sys "free" []) (join_all left (i + 1)))
])

-- After the threads are created.
abbrev pub meet_threads : Prog ℤ
meet_threads = print "Created %d threads\n" (nat 7 ∷ []) >> (join_all 7 0 >> ret (pos 7))

unfoldable pub makethreads : Prog ℤ
makethreads = create_loop 1 7 0 >> meet_threads

-- `while (bytesread != 1)` around `read`, on fuel.
unfoldable pub read_char : ℤ → ℕ → Prog ℤ
read_char fd zero = spin
read_char fd (suc fuel) =
    let rest = read_char fd fuel in
    ask (read fd 1)
      (λ a. if eqb_ℤ a.result (pos 1) then ret (char_of (byte_at 0 a.bytes)) else rest)

-- `dup(0)`, and the loop.
abbrev pub key_pressed : ℕ → Prog ℤ
key_pressed fuel = ask (sys "dup" (nat 0 ∷ [])) (λ a. read_char a.result fuel)

unfoldable pub fork_demon : ℕ → Prog ℤ
fork_demon fuel =
    ask fork
      (λ a. if eqb_ℤ a.result (pos 0) then (key_pressed fuel >>= λ c. exit c) else ret a.result)

-- The child returns; the parent runs off the end, and `garbage` is its value.
unfoldable pub fork_and_wait : ℕ → ℤ → Prog ℤ
fork_and_wait fuel garbage = ask fork (λ a.
    if eqb_ℤ a.result (pos 0)
    then key_pressed fuel
    else (wait_loop wait_failed plain_formats a.result fuel >> ret garbage))

-- The end of `main`.
abbrev pub clean_up : ℤ → ℤ → Prog ℤ
clean_up demon_pid numthreads =
    emit (waitpid demon_pid)
      (emit (sys "unlink" (str "/tmp/controlthreads_pipe" ∷ [])) (ret numthreads))

abbrev pub run_threads : ℤ → Prog ℤ
run_threads demon_pid = makethreads >>= clean_up demon_pid

-- With the demon started.
abbrev pub after_demon : ℕ → ℤ → ℤ → Prog ℤ
after_demon fuel garbage demon_pid = fork_and_wait fuel garbage >>= λ _. run_threads demon_pid

-- From the test of "/tmp" on.
abbrev pub after_pipe : ℕ → ℤ → Prog ℤ
after_pipe fuel garbage = ask (sys "access" (str "/tmp" ∷ [])) (λ a.
    (if eqb_ℤ a.result (pos 0)
      then say (sys "chmod" (str "/tmp" ∷ []))
      else say (sys "mkdir" (str "/tmp" ∷ [])))
    >> (fork_demon fuel >>= after_demon fuel garbage))

unfoldable pub control_main : ℕ → ℤ → Prog ℤ
control_main fuel garbage = emit setbuf (
    ask (sys "access" (str "/tmp/controlthreads_pipe" ∷ [])) (λ a.
      if eqb_ℤ a.result (pos 0)
      then after_pipe fuel garbage
      else ask (sys "mkfifo" (str "/tmp/controlthreads_pipe" ∷ nat 0x1b6 ∷ [])) (λ b.
        if eqb_ℤ b.result minus_one
        then emit (perror "Failed to create named pipe") (ret (pos 1))
        else after_pipe fuel garbage)))
