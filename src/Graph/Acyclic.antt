-- ===== src/Graph/Acyclic.antt =====
-- `_cycles` of src/dyro/graph.py finds walks that close, and finds one where there is any.
use dyro_engineering_flow.Prelude.{
  absurd_bool, ℕ, leb, ◌≤◌, ◌≡◌, refl, sym, ap, ◌∙◌, ◌↔◌, Bool, true, ◌||◌, Option, none, some,
  List, [], ◌∷◌, arith, ◌==◌, ==_iff, and_true, member, length, select, All, Bool-cases, inl, inr,
}
use dyro_engineering_flow.Prelude.Sort.{sort_by, any-sort_by}
use dyro_engineering_flow.Planner.Model.{Task}
use dyro_engineering_flow.Graph.Model.{ids_of, kept_dependencies, lookup_task, dependencies}
use dyro_engineering_flow.Graph.Cycles.{Color, Search, unique, visit_all, start, cycles}
use dyro_engineering_flow.Graph.Walks.{Edge, IsCycle, no_cycle}
use dyro_engineering_flow.Graph.Search.{is_visited, Inv}
use dyro_engineering_flow.Graph.Loop.{whites, visit_all_ends}

member-unique : (k : ℕ) (xs : List ℕ) → member k (unique xs) ≡ member k xs
member-unique k [] = refl
member-unique k (x ∷ xs) = elim (Bool-cases (member x (unique xs))) [
  | inl e ↦ rw e (elim (Bool-cases (x == k)) [
    | inl same ↦ rw same (ap (λ j. member j (unique xs)) (sym ((==_iff x k).0 same)) ∙ e)
    | inr other ↦ rw other (member-unique k xs)
  ])
  | inr e ↦ rw e (ap (λ b. (x == k) || b) (member-unique k xs))
]

member-select : (p : ℕ → Bool) (v : ℕ) (xs : List ℕ) → member v (select p xs) ≡ true → p v ≡ true
member-select p v [] h = ground arith
member-select p v (x ∷ xs) h = elim (Bool-cases (p x)) [
  | inr e ↦ member-select p v xs (rw e at h)
  | inl e ↦ elim (Bool-cases (x == v)) [
    | inl same ↦ ap p (sym ((==_iff x v).0 same)) ∙ e
    | inr other ↦ member-select p v xs (rw (e, other) at h)
  ]
]

whites-le-length : (ids : List ℕ) (colors : ℕ → Color) → whites ids colors ≤ length ids
whites-le-length [] colors = omega arith
whites-le-length (k ∷ ks) colors = ground (arith, whites-le-length ks colors)

lookup_task-member :
    (k : ℕ) (tasks : List Task) (t : Task)
    → lookup_task k tasks ≡ some t
    → member k (ids_of tasks) ≡ true
unfolding lookup_task
lookup_task-member k [] t h = ground arith
lookup_task-member k (x ∷ xs) t h = ground (arith, lookup_task-member k xs t)

dependencies-inside :
    (tasks : List Task) (u v : ℕ) → Edge (dependencies tasks) u v → member v (ids_of tasks) ≡ true
unfolding dependencies
dependencies-inside tasks u v e = by (lookup_task u tasks) e
  where
    by :
        (o : Option Task)
        → member v (elim o [ none ↦ [] | some t ↦ kept_dependencies (ids_of tasks) t ]) ≡ true
        → member v (ids_of tasks) ≡ true
    by none h = ground arith
    by (some t) h = (and_true (member-select _ v t.depends_on h)).0

dependencies-known :
    (tasks : List Task) (u v : ℕ) → Edge (dependencies tasks) u v → member u (ids_of tasks) ≡ true
unfolding dependencies
dependencies-known tasks u v e = by (lookup_task u tasks) refl e
  where
    by :
        (o : Option Task)
        → lookup_task u tasks ≡ o
        → member v (elim o [ none ↦ [] | some t ↦ kept_dependencies (ids_of tasks) t ]) ≡ true
        → member u (ids_of tasks) ≡ true
    by none k h = ground arith
    by (some t) k h = lookup_task-member u tasks t k

abbrev pub search_order : List Task → List ℕ
search_order tasks = sort_by leb (unique (ids_of tasks))

order-member : (tasks : List Task) (k : ℕ) → member k (search_order tasks) ≡ member k (ids_of tasks)
order-member tasks k =
    any-sort_by leb (λ x. x == k) (unique (ids_of tasks)) ∙ member-unique k (ids_of tasks)

start-Inv : (deps : ℕ → List ℕ) → Inv deps start
start-Inv deps = record {
  walk = tt;
  on_stack = λ j. refl;
  sound = tt;
  kept = λ h. refl;
  ranked = λ h. (λ _. 0, λ u v k e. absurd_bool (sym k));
}

found_none :
    (deps : ℕ → List ℕ) (found : List (List ℕ))
    → All (IsCycle deps) found
    → ((c : List ℕ) → IsCycle deps c → ⊥)
    → found ≡ []
found_none deps [] a never = refl
found_none deps (c ∷ cs) (i, _) never = absurd (never c i)

cycles_step :
    (tasks : List Task) (s : Search)
    → visit_all (dependencies tasks) (length (search_order tasks)) (search_order tasks) start
      ≡ some s
    → cycles tasks ≡ some s.found
unfolding cycles
cycles_step tasks s e = rw (e, cycles) refl

-- The search always answers, whatever the tasks are. Each cycle that it finds is a walk along
-- dependencies from a task to itself, and it finds none exactly where there is no such walk.
pub cycles_lem :
    (tasks : List Task)
    → (found : List (List ℕ)) × (cycles tasks ≡ some found)
      × All (IsCycle (dependencies tasks)) found
      × ((found ≡ []) ↔ ((c : List ℕ) → IsCycle (dependencies tasks) c → ⊥))
cycles_lem tasks =
    let deps = dependencies tasks in
    let ids = search_order tasks in
    let (s, e, f) =
      visit_all_ends deps ids (length ids) ids start
        (λ u v edge. order-member tasks v ∙ dependencies-inside tasks u v edge) (λ d h. h)
        (whites-le-length ids start.colors) refl (start-Inv deps) in
    let finished = λ (empty : s.found ≡ []) (u v : ℕ) (edge : Edge deps u v).
      f.complete empty u (order-member tasks u ∙ dependencies-known tasks u v edge) in
    let only_if = λ (empty : s.found ≡ []).
      let (rank, fall) = f.later.inv.ranked empty in
      no_cycle deps rank (λ u. is_visited (s.colors u) ≡ true) fall (finished empty) in
    (
      s.found,
      cycles_step tasks s e,
      f.later.inv.sound,
      (only_if, found_none deps s.found f.later.inv.sound),
    )
