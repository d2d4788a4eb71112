-- ===== src/Graph/WellFormed.antt =====
-- `validate_task_graph` of src/dyro/graph.py against a description of a graph without faults.
use dyro_engineering_flow.Prelude.{
  absurd_bool, ℕ, leb, ◌≡◌, ◌≢◌, refl, sym, ap, ◌∙◌, ◌↔◌, Bool, true, false, not, Option, none,
  some, List, [], ◌∷◌, ◌++◌, map, arith, ◌==◌, ==_iff, member, All, append-eq-nil, is_some,
  Bool-cases, inl, inr,
}
use dyro_engineering_flow.Prelude.Sort.{sort_by}
use dyro_engineering_flow.Prelude.Filters.{sort_by-eq-nil}
use dyro_engineering_flow.Planner.Model.{Task, decision_of}
use dyro_engineering_flow.Graph.Model.{
  IssueCode, duplicate_task, duplicate_dependency, duplicate_decision, missing_decision,
  missing_dependency, cross_line_dependency, dependency_cycle, GraphIssue, TaskGraph, ids_of,
  lookup_task, dependencies,
}
use dyro_engineering_flow.Graph.Cycles.{unique, cycles}
use dyro_engineering_flow.Graph.Walks.{IsCycle}
use dyro_engineering_flow.Graph.Acyclic.{cycles_lem}
use dyro_engineering_flow.Graph.Validate.{
  issue, issue_if, repeats, repeated, dependency_issues, each, task_issues, validate_task_graph,
}

not-false : {b : Bool} → not b ≡ false → b ≡ true
not-false h = ground arith

validate_step :
    (g : TaskGraph) (found : List (List ℕ))
    → cycles g.tasks ≡ some found
    → validate_task_graph g
      ≡ some (
          map
            (λ k. issue duplicate_task (k ∷ []))
            (sort_by leb (unique (repeated (ids_of g.known_tasks))))
          ++ (each (task_issues g) g.tasks ++ map (issue dependency_cycle) found))
unfolding validate_task_graph
validate_step g found e = rw (e, validate_task_graph) refl

-- No number stands twice.
abbrev pub Distinct : List ℕ → Type 0
Distinct [] = Unit
Distinct (x ∷ xs) = (member x xs ≡ false) × Distinct xs

-- A dependency on another known task of the same line.
abbrev pub IsSound : List Task → Task → ℕ → Type 0
IsSound known t d =
    (d ≢ t.id) × ((other : Task) × (lookup_task d known ≡ some other) × (other.line ≡ t.line))

abbrev pub TaskWellFormed : TaskGraph → Task → Type 0
TaskWellFormed g t =
    Distinct t.depends_on
    × Distinct t.blocked_on
    × All (IsSound g.known_tasks t) t.depends_on
    × All (λ d. is_some (decision_of d g.decisions) ≡ true) t.blocked_on

abbrev pub WellFormed : TaskGraph → Type 0
WellFormed g =
    Distinct (ids_of g.known_tasks)
    × All (TaskWellFormed g) g.tasks
    × ((c : List ℕ) → IsCycle (dependencies g.tasks) c → ⊥)

append-nil_iff : (xs ys : List GraphIssue) → (xs ++ ys ≡ []) ↔ ((xs ≡ []) × (ys ≡ []))
append-nil_iff xs ys = (append-eq-nil xs ys, λ (a, b). rw (a, b) refl)

issue_if-nil :
    (b : Bool) (code : IssueCode) (ids : List ℕ) → (issue_if b code ids ≡ []) ↔ (b ≡ false)
issue_if-nil true code ids = (λ h. ground arith, λ h. ground arith)
issue_if-nil false code ids = (λ h. refl, λ h. refl)

map-nil_iff : {A : Type 0} (f : A → GraphIssue) (xs : List A) → (map f xs ≡ []) ↔ (xs ≡ [])
map-nil_iff f [] = (λ h. refl, λ h. refl)
map-nil_iff f (x ∷ xs) = (λ h. ground arith, λ h. ground arith)

each-nil_iff :
    {A : Type 0} (f : A → List GraphIssue) (P : A → Type 0) (xs : List A)
    → ((x : A) → (f x ≡ []) ↔ P x)
    → (each f xs ≡ []) ↔ All P xs
each-nil_iff f P [] h = (λ _. tt, λ _. refl)
each-nil_iff f P (x ∷ xs) h =
    let (a, b) = append-nil_iff (f x) (each f xs) in
    let (from, to) = each-nil_iff f P xs h in
    (λ e. ((h x).0 (a e).0, from (a e).1), λ (p, ps). b ((h x).1 p, to ps))

repeats-Distinct : (xs : List ℕ) → (repeats xs ≡ false) ↔ Distinct xs
repeats-Distinct [] = (λ _. tt, λ _. refl)
repeats-Distinct (x ∷ xs) =
    let (from, to) = repeats-Distinct xs in
    elim (Bool-cases (member x xs)) [
      | inl e ↦ (λ h. ground arith, λ (h, _). ground arith)
      | inr e ↦ (λ h. (e, from (rw e at h)), λ (_, hs). rw e (to hs))
    ]

repeated-Distinct : (xs : List ℕ) → (repeated xs ≡ []) ↔ Distinct xs
repeated-Distinct [] = (λ _. tt, λ _. refl)
repeated-Distinct (x ∷ xs) =
    let (from, to) = repeated-Distinct xs in
    elim (Bool-cases (member x xs)) [
      | inl e ↦ (λ h. ground arith, λ (h, _). ground arith)
      | inr e ↦ (λ h. (e, from (rw e at h)), λ (_, hs). rw e (to hs))
    ]

unique-nil_iff : (xs : List ℕ) → (unique xs ≡ []) ↔ (xs ≡ [])
unique-nil_iff [] = (λ _. refl, λ _. refl)
unique-nil_iff (x ∷ xs) = (
  λ h. elim (Bool-cases (member x (unique xs))) [
    | inl e ↦ let empty : unique xs ≡ [] = rw e at h in absurd_bool (sym e ∙ ap (member x) empty)
    | inr e ↦ let never : x ∷ unique xs ≡ [] = rw e at h in ground arith
  ],
  λ h. ground arith,
)

-- What is found of a dependency.
known-IsSound :
    (known : List Task) (t : Task) (d : ℕ) (o : Option Task)
    → lookup_task d known ≡ o
    → d ≢ t.id
    → ((elim o [
      | none ↦ issue missing_dependency (t.id ∷ d ∷ []) ∷ []
      | some other ↦ issue_if (not (other.line == t.line)) cross_line_dependency (t.id ∷ d ∷ [])
    ])
        ≡ [])
      ↔ IsSound known t d
known-IsSound known t d none e differs =
    (λ h. ground arith, λ (_, (other, k, _)). let never = sym e ∙ k in ground arith)
known-IsSound known t d (some other) e differs =
    let (from, to) =
      issue_if-nil (not (other.line == t.line)) cross_line_dependency (t.id ∷ d ∷ []) in
    (
      λ h. (differs, (other, e, let line = from h in ground arith)),
      λ (_, (found, k, line)).
          let same : other ≡ found = (let both = sym e ∙ k in ground arith) in
          to (
            let line' : other.line ≡ t.line = ap (λ x. x.line) same ∙ line in
            rw ((==_iff other.line t.line).1 line') refl),
    )

dependency-IsSound :
    (known : List Task) (t : Task) (d : ℕ) → (dependency_issues known t d ≡ []) ↔ IsSound known t d
dependency-IsSound known t d = elim (Bool-cases (d == t.id)) [
  | inl e ↦ rw e (λ h. ground arith, λ (differs, _). absurd (differs ((==_iff d t.id).0 e)))
  | inr e ↦ rw e (
      known-IsSound known t d (lookup_task d known) refl
        (λ same. absurd_bool (sym ((==_iff d t.id).1 same) ∙ e)))
]

task-WellFormed : (g : TaskGraph) (t : Task) → (task_issues g t ≡ []) ↔ TaskWellFormed g t
task-WellFormed g t =
    let a = issue_if-nil (repeats t.depends_on) duplicate_dependency (t.id ∷ []) in
    let b = issue_if-nil (repeats t.blocked_on) duplicate_decision (t.id ∷ []) in
    let c =
      each-nil_iff (dependency_issues g.known_tasks t) (IsSound g.known_tasks t) t.depends_on
        (dependency-IsSound g.known_tasks t) in
    let e =
      each-nil_iff
        (λ d. issue_if (not (is_some (decision_of d g.decisions))) missing_decision (t.id ∷ []))
        (λ d. is_some (decision_of d g.decisions) ≡ true) t.blocked_on
        (λ d.
          let (from, to) =
            issue_if-nil (not (is_some (decision_of d g.decisions))) missing_decision (t.id ∷ []) in
          (λ h. not-false (from h), λ h. to (rw h refl))) in
    let x = append-nil_iff _ _ in
    let y = append-nil_iff _ _ in
    let z = append-nil_iff _ _ in
    let p = repeats-Distinct t.depends_on in
    let q = repeats-Distinct t.blocked_on in
    (
      λ h.
          let (h1, h') = x.0 h in
          let (h2, h'') = y.0 h' in
          let (h3, h4) = z.0 h'' in (p.0 (a.0 h1), q.0 (b.0 h2), c.0 h3, e.0 h4),
      λ (k1, k2, k3, k4). x.1 (a.1 (p.1 k1), y.1 (b.1 (q.1 k2), z.1 (c.1 k3, e.1 k4))),
    )

-- The validation of a graph always answers, and it finds no issue exactly where no known task stands
-- twice, every task names each dependency and each decision once, its dependencies are other known
-- tasks of its line, its decisions are known, and no walk along dependencies closes.
pub validate_task_graph-iff-WellFormed :
    (g : TaskGraph)
    → (issues : List GraphIssue) × (validate_task_graph g ≡ some issues)
      × ((issues ≡ []) ↔ WellFormed g)
validate_task_graph-iff-WellFormed g =
    let (found, e, _, acyclic) = cycles_lem g.tasks in
    let x =
      append-nil_iff
        (map (λ k. issue duplicate_task (k ∷ []))
          (sort_by leb (unique (repeated (ids_of g.known_tasks)))))
        (each (task_issues g) g.tasks ++ map (issue dependency_cycle) found) in
    let y = append-nil_iff (each (task_issues g) g.tasks) (map (issue dependency_cycle) found) in
    let a =
      map-nil_iff (λ k. issue duplicate_task (k ∷ []))
        (sort_by leb (unique (repeated (ids_of g.known_tasks)))) in
    let b = sort_by-eq-nil leb (unique (repeated (ids_of g.known_tasks))) in
    let c = unique-nil_iff (repeated (ids_of g.known_tasks)) in
    let d = repeated-Distinct (ids_of g.known_tasks) in
    let tasks = each-nil_iff (task_issues g) (TaskWellFormed g) g.tasks (task-WellFormed g) in
    let m = map-nil_iff (issue dependency_cycle) found in
    (
      _,
      validate_step g found e,
      (
        λ h.
            let (h1, h') = x.0 h in
            let (h2, h3) = y.0 h' in (d.0 (c.0 (b.0 (a.0 h1))), tasks.0 h2, acyclic.0 (m.0 h3)),
        λ (k1, k2, k3). x.1 (a.1 (b.1 (c.1 (d.1 k1))), y.1 (tasks.1 k2, m.1 (acyclic.1 k3))),
      ),
    )
