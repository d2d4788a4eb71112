-- ===== src/Graph/Model.antt =====
-- The records of src/dyro/graph.py. Identifiers are numbers, as in the planner.
use dyro_engineering_flow.Prelude.{
  ℕ, Bool, not, ◌&&◌, Option, none, some, List, [], ◌∷◌, ◌==◌, member, select, map, if◌then◌else◌,
}
use dyro_engineering_flow.Planner.Model.{Task}

-- The codes of an issue; the message is printed from the code and the identifiers.
pub data IssueCode : Type 0 where
  duplicate_task duplicate_dependency duplicate_decision self_dependency : IssueCode
  missing_dependency cross_line_dependency missing_decision dependency_cycle : IssueCode

pub record GraphIssue : Type 0 where
  pub code : IssueCode
  pub task_ids : List ℕ

-- A decision stands with whether its state is `resolved`.
pub record TaskGraph : Type 0 where
  pub tasks : List Task
  pub known_tasks : List Task
  pub decisions : List (ℕ × Bool)

-- `build_task_graph`, on the tasks and the decisions that it reads
unfoldable pub build_task_graph : List Task → List (ℕ × Bool) → Option ℕ → TaskGraph
build_task_graph known decisions line = record {
  tasks = elim line [ none ↦ known | some l ↦ select (λ t. t.line == l) known ];
  known_tasks = known;
  decisions = decisions;
}

abbrev pub ids_of : List Task → List ℕ
ids_of tasks = map (λ t. t.id) tasks

-- `dependencies[task_id]`: of two tasks with one identifier the last counts.
abbrev pub kept_dependencies : List ℕ → Task → List ℕ
kept_dependencies ids t = select (λ d. member d ids && not (d == t.id)) t.depends_on

unfoldable pub lookup_task : ℕ → List Task → Option Task
lookup_task k [] = none
lookup_task k (t ∷ ts) = elim (lookup_task k ts) [
  | some found ↦ some found
  | none ↦ if t.id == k then some t else none
]

unfoldable pub dependencies : List Task → ℕ → List ℕ
unfolding lookup_task
dependencies tasks k = elim (lookup_task k tasks) [
  | none ↦ []
  | some t ↦ kept_dependencies (ids_of tasks) t
]
