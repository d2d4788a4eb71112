-- ===== src/Planner/Ready.antt =====
-- The verdict `ready` of `build_task_readiness` in src/dyro/continuation/planner.py.
use dyro_engineering_flow.Prelude.{
  ℕ, ◌≡◌, ◌↔◌, refl, sym, ap, Bool, true, false, not, ◌||◌, inl, inr, none, some, List, [], ◌∷◌,
  arith, All, All-weaken, select, map, leb, ◌==◌, ==_iff, Bool-cases, Option-cases,
}
use dyro_engineering_flow.Prelude.Sort.{sort_by}
use dyro_engineering_flow.Prelude.Filters.{
  All-sort_iff, sort_by-eq-nil, select-eq-nil, All-map-select,
}
use dyro_engineering_flow.Planner.Model.{
  backlog, assigned, done, same_state, is_integrated, Task, SchedulerTaskSnapshot,
  SchedulerSnapshot, find_task, decision_of,
}
use dyro_engineering_flow.Planner.Readiness.{
  ok, in_group, active_conflicts, is_resolved, unresolved, first_dependency, ready, classify,
}

-- A dependency that is known, done and integrated.
abbrev pub IsMet : SchedulerSnapshot → ℕ → Type 0
IsMet s d =
    (dep : SchedulerTaskSnapshot) × (find_task d s.tasks ≡ some dep)
    × (same_state dep.status done ≡ true)
    × (is_integrated dep.integration_state ≡ true)

-- A task that may run: it waits to run, nobody outside works on it, its decisions are resolved,
-- its dependencies are met, and no other task of its conflict group works.
pub record IsReady (s : SchedulerSnapshot) (item : SchedulerTaskSnapshot) : Type 0 where
  pub waits : (same_state item.status backlog || same_state item.status assigned) ≡ true
  pub unclaimed : item.external_claim_active ≡ false
  pub decided : All (λ key. is_resolved (decision_of key s.decisions) ≡ true) item.task.blocked_on
  pub met : All (IsMet s) item.task.depends_on
  pub alone :
      All
        (λ other. in_group s item.task.conflict_group other ≡ true → other.task.id ≡ item.task.id)
        s.tasks

-- What the verdict `ready` says of the searches of `classify`.
abbrev pub Searched : SchedulerSnapshot → SchedulerTaskSnapshot → Type 0
Searched s item =
    ((same_state item.status backlog || same_state item.status assigned) ≡ true)
    × (item.external_claim_active ≡ false)
    × (unresolved s item.task ≡ [])
    × (first_dependency s (λ d. not (same_state d.status done)) (sort_by leb item.task.depends_on)
        ≡ ok none)
    × (first_dependency s (λ d. not (is_integrated d.integration_state))
          (sort_by leb item.task.depends_on)
        ≡ ok none)
    × (select (λ id. not (id == item.task.id)) (active_conflicts s item.task.conflict_group) ≡ [])

pub classify-Searched :
    (s : SchedulerSnapshot) (item : SchedulerTaskSnapshot) {t : Task}
    → classify s item ≡ ok (ready t)
    → Searched s item × (item.task ≡ t)
unfolding classify
classify-Searched s item h = ground arith

Searched-classify :
    (s : SchedulerSnapshot) (item : SchedulerTaskSnapshot)
    → Searched s item
    → classify s item ≡ ok (ready item.task)
unfolding classify
Searched-classify s item h = ground arith

-- Every dependency is known and none matches.
first_dependency-none :
    (s : SchedulerSnapshot) (p : SchedulerTaskSnapshot → Bool) (ds : List ℕ)
    → (first_dependency s p ds ≡ ok none)
      ↔ All
          (λ d. (dep : SchedulerTaskSnapshot) × (find_task d s.tasks ≡ some dep) × (p dep ≡ false))
          ds
unfolding first_dependency
first_dependency-none s p [] = (λ h. tt, λ h. refl)
first_dependency-none s p (d ∷ ds) =
    let (from, to) = first_dependency-none s p ds in
    elim (Option-cases (find_task d s.tasks)) [
      | inl e ↦ (λ h. ground arith, λ ((dep, known, _), _). ground arith)
      | inr (dep, e) ↦ elim (Bool-cases (p dep)) [
        | inl b ↦ (λ h. ground arith, λ ((dep', known, other), _). ground arith)
        | inr b ↦ (
          λ h. ((dep, e, b), from (ground arith)),
          λ (_, hs). rw (first_dependency, e, b) (to hs),
        )
      ]
    ]

not-false : (b : Bool) → (not b ≡ false) ↔ (b ≡ true)
not-false b = ground arith

-- The two searches through the dependencies.
IsMet-iff :
    (s : SchedulerSnapshot) (ds : List ℕ)
    → ((first_dependency s (λ d. not (same_state d.status done)) (sort_by leb ds) ≡ ok none)
        × (first_dependency s (λ d. not (is_integrated d.integration_state)) (sort_by leb ds)
            ≡ ok none))
      ↔ All (IsMet s) ds
IsMet-iff s ds = (
  λ (a, b). (All-sort_iff leb (IsMet s) ds).0 (
      both (sort_by leb ds) ((first_dependency-none s _ (sort_by leb ds)).0 a)
        ((first_dependency-none s _ (sort_by leb ds)).0 b)),
  λ h.
      let sorted = (All-sort_iff leb (IsMet s) ds).1 h in
      (
        (first_dependency-none s _ (sort_by leb ds)).1 (
            All-weaken _ _ (sort_by leb ds)
              (λ d (dep, known, finished, _). (dep, known, (not-false _).1 finished)) sorted),
        (first_dependency-none s _ (sort_by leb ds)).1 (
            All-weaken _ _ (sort_by leb ds)
              (λ d (dep, known, _, merged). (dep, known, (not-false _).1 merged)) sorted),
      ),
)
  where
    both :
        (xs : List ℕ)
        → All
            (λ d.
              (dep : SchedulerTaskSnapshot) × (find_task d s.tasks ≡ some dep)
              × (not (same_state dep.status done) ≡ false))
            xs
        → All
            (λ d.
              (dep : SchedulerTaskSnapshot) × (find_task d s.tasks ≡ some dep)
              × (not (is_integrated dep.integration_state) ≡ false))
            xs
        → All (IsMet s) xs
    both [] h k = tt
    both (d ∷ ds') ((dep, known, finished), h) ((dep', known', merged), k) =
        let same : dep' ≡ dep = cc in
        (
          (
            dep,
            known,
            (not-false _).0 finished,
            (not-false _).0 (rw (ap (λ x. x.integration_state) (sym same)) merged),
          ),
          both ds' h k,
        )

decided_iff :
    (s : SchedulerSnapshot) (task : Task)
    → (unresolved s task ≡ [])
      ↔ All (λ key. is_resolved (decision_of key s.decisions) ≡ true) task.blocked_on
unfolding unresolved
decided_iff s task =
    let none_left =
      select-eq-nil (λ key. not (is_resolved (decision_of key s.decisions))) task.blocked_on in
    (
      λ h.
          All-weaken _ _ task.blocked_on (λ key k. (not-false _).0 k)
            (none_left.0 ((sort_by-eq-nil leb _).0 h)),
      λ h.
          (sort_by-eq-nil leb _).1
            (none_left.1 (All-weaken _ _ task.blocked_on (λ key k. (not-false _).1 k) h)),
    )

alone_iff :
    (s : SchedulerSnapshot) (group id : ℕ)
    → (select (λ other. not (other == id)) (active_conflicts s group) ≡ [])
      ↔ All (λ other. in_group s group other ≡ true → other.task.id ≡ id) s.tasks
unfolding active_conflicts
alone_iff s group id =
    let ids = map (λ item. item.task.id) (select (in_group s group) s.tasks) in
    let none_left = select-eq-nil (λ other. not (other == id)) (sort_by leb ids) in
    let unsorted = All-sort_iff leb (λ other. not (other == id) ≡ false) ids in
    let unmapped =
      All-map-select (λ other. not (other == id) ≡ false) (λ item. item.task.id) (in_group s group)
        s.tasks in
    (
      λ h.
          All-weaken _ _ s.tasks (λ other k g. (==_iff _ _).0 ((not-false _).0 (k g)))
            (unmapped.0 (unsorted.0 (none_left.0 h))),
      λ h. none_left.1 (
          unsorted.1 (
            unmapped.1
              (All-weaken _ _ s.tasks (λ other k g. (not-false _).1 ((==_iff _ _).1 (k g))) h))),
    )

-- A task is classified as ready exactly where it may run.
pub classify-iff-IsReady :
    (s : SchedulerSnapshot) (item : SchedulerTaskSnapshot)
    → (classify s item ≡ ok (ready item.task)) ↔ IsReady s item
classify-iff-IsReady s item = (
  λ h.
      let ((w, c, d, a, b, g), _) = classify-Searched s item h in
      record {
        waits = w;
        unclaimed = c;
        decided = (decided_iff s item.task).0 d;
        met = (IsMet-iff s item.task.depends_on).0 (a, b);
        alone = (alone_iff s item.task.conflict_group item.task.id).0 g;
      },
  λ i.
      let (a, b) = (IsMet-iff s item.task.depends_on).1 i.met in
      Searched-classify s item (
        i.waits,
        i.unclaimed,
        (decided_iff s item.task).1 i.decided,
        a,
        b,
        (alone_iff s item.task.conflict_group item.task.id).1 i.alone,
      ),
)
