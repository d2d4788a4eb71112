-- ===== src/Graph/Validate.antt =====
-- `validate_task_graph` of src/dyro/graph.py, its issues in the order of the code.
use dyro_engineering_flow.Prelude.{
  ℕ, Bool, true, false, not, Option, none, some, List, [], ◌∷◌, ◌++◌, leb, ◌==◌, member, map,
  is_some, if◌then◌else◌,
}
use dyro_engineering_flow.Prelude.Sort.{sort_by}
use dyro_engineering_flow.Planner.Model.{Task, decision_of}
use dyro_engineering_flow.Graph.Model.{
  IssueCode, duplicate_task, duplicate_dependency, duplicate_decision, self_dependency,
  missing_dependency, cross_line_dependency, missing_decision, dependency_cycle, GraphIssue,
  TaskGraph, ids_of, lookup_task,
}
use dyro_engineering_flow.Graph.Cycles.{unique, cycles}

abbrev pub issue : IssueCode → List ℕ → GraphIssue
issue code ids = record { code = code; task_ids = ids }

abbrev pub issue_if : Bool → IssueCode → List ℕ → List GraphIssue
issue_if b code ids = if b then issue code ids ∷ [] else []

-- `len(set(xs)) != len(xs)`
abbrev pub repeats : List ℕ → Bool
repeats [] = false
repeats (x ∷ xs) = if member x xs then true else repeats xs

-- The identifiers that stand twice.
abbrev pub repeated : List ℕ → List ℕ
repeated [] = []
repeated (x ∷ xs) = let rest = repeated xs in if member x xs then x ∷ rest else rest

abbrev pub dependency_issues : List Task → Task → ℕ → List GraphIssue
dependency_issues known t d =
    if d == t.id then issue self_dependency (t.id ∷ []) ∷ [] else elim (lookup_task d known) [
      | none ↦ issue missing_dependency (t.id ∷ d ∷ []) ∷ []
      | some other ↦ issue_if (not (other.line == t.line)) cross_line_dependency (t.id ∷ d ∷ [])
    ]

abbrev pub each : {A : Type 0} → (A → List GraphIssue) → List A → List GraphIssue
each f [] = []
each f (x ∷ xs) = f x ++ each f xs

abbrev pub task_issues : TaskGraph → Task → List GraphIssue
task_issues g t =
    issue_if (repeats t.depends_on) duplicate_dependency (t.id ∷ [])
    ++ (issue_if (repeats t.blocked_on) duplicate_decision (t.id ∷ [])
        ++ (each (dependency_issues g.known_tasks t) t.depends_on
            ++ each
                (λ d.
                  issue_if (not (is_some (decision_of d g.decisions))) missing_decision (t.id ∷ []))
                t.blocked_on))

unfoldable pub validate_task_graph : TaskGraph → Option (List GraphIssue)
unfolding cycles sort_by lookup_task decision_of
validate_task_graph g = elim (cycles g.tasks) [
  | none ↦ none
  | some found ↦ some (
      map (λ k. issue duplicate_task (k ∷ []))
        (sort_by leb (unique (repeated (ids_of g.known_tasks))))
      ++ (each (task_issues g) g.tasks ++ map (issue dependency_cycle) found))
]
