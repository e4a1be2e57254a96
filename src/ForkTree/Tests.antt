-- ===== src/ForkTree/Tests.antt =====
-- Runs of forktree_and_pthread.c.
use text.Mathlib.Text.{◌==◌}
use generic_tests.Common.{◌≡◌, ◌*◌, ◌^◌, refl, String, [], ◌∷◌, arith, if◌then◌else◌}
use generic_tests.Common.Int.{ℤ, pos, negsuc}
use generic_tests.Sys.{pthread_create}
use generic_tests.Sys.Tree.{Env, processes, threads}
use generic_tests.ForkTree.{thread_count, tree_main}
use generic_tests.ForkTree.Laws.{IsFriendly, nodes, tree_size, tree_runs_away}

abbrev quiet : Env
quiet (pthread_create i) = record { result = pos 0; status = 0; bytes = [] }
quiet _ = record { result = pos 7; status = 0; bytes = [] }

quiet-IsFriendly : IsFriendly quiet 6 0
quiet-IsFriendly = record {
  forks = refl;
  creates = λ i. refl;
  small = omega arith;
  alive = refl;
  status = refl;
}

abbrev three : String → ℤ
three s = pos 3

tree_size_example :
    (processes quiet (tree_main three 9 9 ("tree" ∷ "3" ∷ "3" ∷ [])) ≡ nodes 3 3)
    × (threads quiet (tree_main three 9 9 ("tree" ∷ "3" ∷ "3" ∷ [])) ≡ 3 ^ 3 * thread_count (pos 3))
tree_size_example =
    tree_size quiet 6 0 quiet-IsFriendly three 9 8 3 ("tree" ∷ "3" ∷ "3" ∷ []) refl (omega arith)

-- Two forks on -1 levels.
abbrev two_or_less : String → ℤ
two_or_less s = if s == "2" then pos 2 else negsuc 0

tree_runs_away_example :
    (processes quiet (tree_main two_or_less 4 9 ("tree" ∷ "2" ∷ "-1" ∷ [])) ≡ nodes 2 4)
    × (threads quiet (tree_main two_or_less 4 9 ("tree" ∷ "2" ∷ "-1" ∷ [])) ≡ 0)
tree_runs_away_example =
    tree_runs_away quiet 6 0 quiet-IsFriendly two_or_less 4 8 0 ("tree" ∷ "2" ∷ "-1" ∷ []) refl
      (omega arith)
