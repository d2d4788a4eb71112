-- ===== src/Graph/Tests.antt =====
-- Three tasks that wait for one another, and one that waits for them.
use dyro_engineering_flow.Prelude.{ℕ, ◌≡◌, ◌↔◌, refl, true, none, some, List, [], ◌∷◌, All}
use dyro_engineering_flow.Planner.Model.{Task}
use dyro_engineering_flow.Graph.Model.{
  missing_dependency, cross_line_dependency, GraphIssue, dependencies, build_task_graph,
}
use dyro_engineering_flow.Graph.Cycles.{cycles}
use dyro_engineering_flow.Graph.Validate.{issue, validate_task_graph}
use dyro_engineering_flow.Graph.Walks.{IsCycle}
use dyro_engineering_flow.Graph.Acyclic.{cycles_lem}
use dyro_engineering_flow.Graph.WellFormed.{WellFormed, validate_task_graph-iff-WellFormed}

abbrev pub task_on : ℕ → ℕ → List ℕ → Task
task_on id line depends_on = record {
  id = id;
  line = line;
  is_write = true;
  executor = 1;
  reviewer = 2;
  depends_on = depends_on;
  blocked_on = [];
  conflict_group = 0;
}

abbrev tasks : List Task
tasks =
    task_on 4 1 (2 ∷ 9 ∷ [])
    ∷ task_on 1 1 (2 ∷ [])
    ∷ task_on 2 1 (3 ∷ [])
    ∷ task_on 3 2 (1 ∷ 4 ∷ [])
    ∷ []

cycles_found : cycles tasks ≡ some ((1 ∷ 2 ∷ 3 ∷ 1 ∷ []) ∷ (2 ∷ 3 ∷ 4 ∷ 2 ∷ []) ∷ [])
unfolding cycles
cycles_found = refl

line_issues :
    validate_task_graph (build_task_graph tasks [] (some 1))
    ≡ some (issue missing_dependency (4 ∷ 9 ∷ []) ∷ issue cross_line_dependency (2 ∷ 3 ∷ []) ∷ [])
unfolding validate_task_graph build_task_graph
line_issues = refl

cycles_lem_example :
    (found : List (List ℕ)) × (cycles tasks ≡ some found)
    × All (IsCycle (dependencies tasks)) found
    × ((found ≡ []) ↔ ((c : List ℕ) → IsCycle (dependencies tasks) c → ⊥))
cycles_lem_example = cycles_lem tasks

validate_task_graph-iff-WellFormed_example :
    (issues : List GraphIssue) × (validate_task_graph (build_task_graph tasks [] none)
      ≡ some issues)
    × ((issues ≡ []) ↔ WellFormed (build_task_graph tasks [] none))
validate_task_graph-iff-WellFormed_example =
    validate_task_graph-iff-WellFormed (build_task_graph tasks [] none)
