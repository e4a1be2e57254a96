-- ===== src/ForkTree/Laws.antt =====
-- forktree_and_pthread.c: how many processes and threads it comes to.
use generic_tests.Common.{
  ℕ, zero, suc, ◌+◌, ◌*◌, ◌^◌, ◌<◌, ◌≡◌, refl, ap, false, String, List, [], ◌∷◌, arith,
}
use native.Mathlib.Nat.{pow-zero, pow-suc}
use generic_tests.Common.Int.{ℤ, pos, negsuc, minus_one, eqb_ℤ, pos_part, suc-eq-zero}
use generic_tests.Sys.{Call, Prog, exit, fork, waitpid, pthread_create, skip, print_flush, int}
use generic_tests.Sys.Tree.{
  Env, sum_of-zero, collect-nil, calls->>=, fork_weight, thread_weight, calls, calls->>=_once,
  returns->>=_once, returns, returns->>=, processes, threads,
}
use generic_tests.Wait.{wait_loop, plain_formats}
use generic_tests.Wait.Laws.{exited, encode}
use generic_tests.Wait.Order.{wait_loop-calls}
use generic_tests.Fork.{fork_count}
use generic_tests.ForkTree.{
  create_threads, join_threads, thread_count, spawnthreads, waitchildren, fork_children, spawnforks,
  level_count, tree_end, tree_main,
}

-- Every `fork` and `pthread_create` succeeds, and the first wait reports an exit with `code`.
pub record IsFriendly (env : Env) (pid code : ℕ) : Type 0 where
  pub forks : (env fork).result ≡ pos (suc pid)
  pub creates : (i : ℕ) → (env (pthread_create i)).result ≡ pos 0
  pub small : code < 256
  pub alive : eqb_ℤ (env (waitpid (pos 0))).result minus_one ≡ false
  pub status : (env (waitpid (pos 0))).status ≡ encode (exited code)

-- How a child ends.
abbrev leave_with : ℕ → Unit {0} → Prog (Unit {0})
leave_with forkno u = exit (pos forkno)

-- What follows the loop over `fork`.
abbrev wait_with : ℕ → ℤ → Unit {0} → Prog (Unit {0})
wait_with waits levno u = waitchildren waits levno

-- The nodes of a tree in which each has `n` children, down to a depth.
abbrev pub nodes : ℕ → ℕ → ℕ
nodes n zero = 1
nodes n (suc depth) = 1 + n * nodes n depth

module _ (env : Env) (pid code : ℕ) (friendly : IsFriendly env pid code) where
  open friendly use {forks, creates, small, alive, status}

  create_threads-calls :
      (n i : ℕ)
      → (threads env (create_threads n i) ≡ n)
        × (calls fork_weight env (create_threads n i) ≡ 0)
        × (returns env (create_threads n i) ≡ tt ∷ [])
  unfolding create_threads threads calls returns
  create_threads-calls zero i = (refl, refl, refl)
  create_threads-calls (suc n) i =
      let (c, f, r) = create_threads-calls n (i + 1) in
      (
        rw (creates i) (omega (arith, c)),
        rw (creates i) (omega (arith, f)),
        rw (returns, creates i) r,
      )

  join_threads-calls :
      (n i : ℕ)
      → (threads env (join_threads n i) ≡ 0)
        × (calls fork_weight env (join_threads n i) ≡ 0)
        × (returns env (join_threads n i) ≡ tt ∷ [])
  unfolding join_threads threads calls returns
  join_threads-calls zero i = (refl, refl, refl)
  join_threads-calls (suc n) i =
      let (c, f, r) = join_threads-calls n (i + 1) in (omega (arith, c), omega (arith, f), r)

  spawnthreads-calls :
      (n : ℤ)
      → (threads env (spawnthreads n) ≡ thread_count n)
        × (calls fork_weight env (spawnthreads n) ≡ 0)
  unfolding spawnthreads threads
  spawnthreads-calls n =
      let k = thread_count n in
      let (c, f, r) = create_threads-calls k 0 in
      let (c', f', r') = join_threads-calls k 0 in
      let join = λ (u : Unit {0}). join_threads k 0 in
      (
        omega (arith, c, c', calls->>=_once env (create_threads k 0) join r thread_weight),
        omega (arith, f, f', calls->>=_once env (create_threads k 0) join r fork_weight),
      )

  waitchildren-calls :
      (waits : ℕ) (levno : ℤ)
      → (threads env (waitchildren (suc waits) levno) ≡ 0)
        × (calls fork_weight env (waitchildren (suc waits) levno) ≡ 0)
        × (returns env (waitchildren (suc waits) levno) ≡ tt ∷ [])
  unfolding waitchildren threads calls returns
  waitchildren-calls waits levno =
      let loop = wait_loop skip plain_formats (pos 0) (suc waits) in
      let rest =
        λ (u : Unit {0}). print_flush "parent %d after all children exitted\n" (int levno ∷ []) in
      let once = λ (w : Call → ℕ).
        wait_loop-calls w env skip plain_formats (pos 0) waits (exited code) alive status small
          refl in
      (
        omega (
          arith,
          (once thread_weight).0,
          calls->>=_once env loop rest (once thread_weight).1 thread_weight,
        ),
        omega (
          arith,
          (once fork_weight).0,
          calls->>=_once env loop rest (once fork_weight).1 fork_weight,
        ),
        returns->>=_once env loop rest (once fork_weight).1,
      )

  fork_children-calls :
      (below : Prog (Unit {0})) (level : ℤ) (n forkno : ℕ)
      → (threads env (fork_children below level n forkno) ≡ n * threads env below)
        × (calls fork_weight env (fork_children below level n forkno) ≡ n * processes env below)
        × (returns env (fork_children below level n forkno) ≡ tt ∷ [])
  unfolding fork_children threads processes calls returns
  fork_children-calls below level zero forkno = (omega arith, omega arith, refl)
  fork_children-calls below level (suc n) forkno =
      let (c, f, r) = fork_children-calls below level n (forkno + 1) in
      let leave = leave_with forkno in
      let none = sum_of-zero (returns env below) in
      (
        rw (forks, suc-eq-zero pid)
            (omega (arith, c, none, calls->>= thread_weight env below leave)),
        rw (forks, suc-eq-zero pid) (omega (arith, f, none, calls->>= fork_weight env below leave)),
        rw
            (
              returns,
              forks,
              suc-eq-zero pid,
              returns->>= env below leave,
              collect-nil (returns env below),
            )
            r,
      )

  spawnforks-calls :
      (levels fuel waits : ℕ) (n : ℤ)
      → levels < fuel
      → (processes env (spawnforks fuel (suc waits) n (pos levels)) ≡ nodes (pos_part n) levels)
        × (threads env (spawnforks fuel (suc waits) n (pos levels))
            ≡ pos_part n ^ levels * thread_count n)
  unfolding spawnforks processes threads
  spawnforks-calls levels zero waits n lt = absurd (omega arith)
  spawnforks-calls zero (suc fuel) waits n lt =
      let (c, f) = spawnthreads-calls n in
      (omega (arith, f), rw (pow-zero (pos_part n)) (omega (arith, c)))
  spawnforks-calls (suc levels) (suc fuel) waits n lt =
      let below = spawnforks fuel (suc waits) n (pos levels) in
      let (p, t) = spawnforks-calls levels fuel waits n (omega arith) in
      let (c, f, r) = fork_children-calls below (pos (suc levels)) (pos_part n) 0 in
      let (wc, wf, wr) = waitchildren-calls waits (pos (suc levels)) in
      let wait = wait_with (suc waits) (pos (suc levels)) in
      let children = fork_children below (pos (suc levels)) (pos_part n) 0 in
      (
        rw (spawnforks, suc-eq-zero levels)
            (omega (
              arith,
              f,
              wf,
              ap (λ (k : ℕ). pos_part n * k) p,
              calls->>=_once env children wait r fork_weight,
            )),
        rw (spawnforks, suc-eq-zero levels, pow-suc)
            (omega (
              arith,
              c,
              wc,
              ap (λ (k : ℕ). pos_part n * k) t,
              calls->>=_once env children wait r thread_weight,
            )),
      )

  -- Below a negative level the recursion does not stop by itself, and makes no thread.
  spawnforks_negative-calls :
      (fuel waits : ℕ) (n : ℤ) (l : ℕ)
      → (processes env (spawnforks fuel (suc waits) n (negsuc l)) ≡ nodes (pos_part n) fuel)
        × (threads env (spawnforks fuel (suc waits) n (negsuc l)) ≡ 0)
  unfolding spawnforks processes threads calls
  spawnforks_negative-calls zero waits n l = (refl, refl)
  spawnforks_negative-calls (suc fuel) waits n l =
      let below = spawnforks fuel (suc waits) n (negsuc (suc l)) in
      let (p, t) = spawnforks_negative-calls fuel waits n (suc l) in
      let (c, f, r) = fork_children-calls below (negsuc l) (pos_part n) 0 in
      let (wc, wf, wr) = waitchildren-calls waits (negsuc l) in
      let children = fork_children below (negsuc l) (pos_part n) 0 in
      let wait = wait_with (suc waits) (negsuc l) in
      (
        omega (
          arith,
          f,
          wf,
          ap (λ (k : ℕ). pos_part n * k) p,
          calls->>=_once env children wait r fork_weight,
        ),
        omega (
          arith,
          c,
          wc,
          ap (λ (k : ℕ). pos_part n * k) t,
          calls->>=_once env children wait r thread_weight,
        ),
      )

  tree_main-calls :
      (atoi : String → ℤ) (fuel waits : ℕ) (argv : List String)
      → let tree = spawnforks fuel waits (fork_count atoi argv) (level_count atoi argv) in
        (processes env (tree_main atoi fuel waits argv) ≡ processes env tree)
        × (threads env (tree_main atoi fuel waits argv) ≡ threads env tree)
  unfolding tree_main processes threads calls
  tree_main-calls atoi fuel waits argv =
      let tree = spawnforks fuel waits (fork_count atoi argv) (level_count atoi argv) in
      let after = λ (u : Unit {0}). tree_end atoi argv in
      let none = sum_of-zero (returns env tree) in
      (
        omega (arith, none, calls->>= fork_weight env tree after),
        omega (arith, none, calls->>= thread_weight env tree after),
      )

  -- forktree_and_pthread.c with `levels` ≥ 0, where every `fork` and `pthread_create` succeeds: a
  -- full tree of processes, and at each of its leaves as many threads as forks, but 20 at most.
  pub tree_size :
      (atoi : String → ℤ) (fuel waits levels : ℕ) (argv : List String)
      → level_count atoi argv ≡ pos levels
      → levels < fuel
      → let n = fork_count atoi argv in
        (processes env (tree_main atoi fuel (suc waits) argv) ≡ nodes (pos_part n) levels)
        × (threads env (tree_main atoi fuel (suc waits) argv)
            ≡ pos_part n ^ levels * thread_count n)
  tree_size atoi fuel waits levels argv count lt =
      let (p, t) = spawnforks-calls levels fuel waits (fork_count atoi argv) lt in
      let (p', t') = tree_main-calls atoi fuel (suc waits) argv in
      (rw (p', count) p, rw (t', count) t)

  -- forktree_and_pthread.c with a negative number of levels, where every `fork` succeeds: down to any
  -- depth at which `numlevels` is still an `int`, the processes are a full tree of that depth, and
  -- none of them has come to the leaves, where the threads are made.
  pub tree_runs_away :
      (atoi : String → ℤ) (fuel waits l : ℕ) (argv : List String)
      → level_count atoi argv ≡ negsuc l
      → l + fuel < 2 ^ 31
      → (processes env (tree_main atoi fuel (suc waits) argv)
          ≡ nodes (pos_part (fork_count atoi argv)) fuel)
        × (threads env (tree_main atoi fuel (suc waits) argv) ≡ 0)
  tree_runs_away atoi fuel waits l argv count fits =
      let (p, t) = tree_main-calls atoi fuel (suc waits) argv in
      let (p', t') = spawnforks_negative-calls fuel waits (fork_count atoi argv) l in
      (rw (p, count) p', rw (t, count) t')
