-- ===== src/Planner/Readiness.antt =====
-- `build_task_readiness` of src/dyro/continuation/planner.py, with `_active_conflicts`.
use dyro_engineering_flow.Prelude.{
  ℕ, Bool, false, not, ◌&&◌, ◌||◌, Option, none, some, List, [], ◌∷◌, leb, ◌==◌, any, select, map,
  member, is_some, if◌then◌else◌,
}
use dyro_engineering_flow.Prelude.Sort.{sort_by}
use dyro_engineering_flow.Journal.Model.{execute_task}
use dyro_engineering_flow.Planner.Model.{
  backlog, assigned, in_progress, review, done, same_state, is_integrated, is_external, Task,
  SchedulerTaskSnapshot, SchedulerSnapshot, find_task, decision_of, dependency_pending,
  decision_open, external_claim_active, conflict_group_active, task_integration_pending, ReasonCode,
  Fact, status_is, decision_ids, dependency_id, dependency_status, in_conflict_group,
  active_task_ids, PlannedAction,
}

-- A key that is no task of the snapshot: `ValidationError` for a candidate, `KeyError` for a
-- dependency.
pub data PlanError : Type 0 where
  unknown_candidate repeated_candidate unknown_dependency : PlanError

pub data PlanResult (A : Type 0) : Type 0 where
  ok : A → PlanResult A
  err : PlanError → PlanResult A

-- The task works now: in progress, or claimed outside where execution is external.
abbrev pub is_working : SchedulerSnapshot → SchedulerTaskSnapshot → Bool
is_working s item =
    same_state item.status in_progress
    || (is_external s.execution_mode
        && same_state item.status assigned
        && item.external_claim_active)

-- `_active_conflicts`, at one group; the empty group is no key of it.
abbrev pub in_group : SchedulerSnapshot → ℕ → SchedulerTaskSnapshot → Bool
in_group s group item =
    not (item.task.conflict_group == 0) && item.task.conflict_group == group && is_working s item

unfoldable pub active_conflicts : SchedulerSnapshot → ℕ → List ℕ
active_conflicts s group =
    sort_by leb (map (λ item. item.task.id) (select (in_group s group) s.tasks))

-- The decisions of a task that are not resolved.
abbrev pub is_resolved : Option Bool → Bool
is_resolved none = false
is_resolved (some resolved) = resolved

unfoldable pub unresolved : SchedulerSnapshot → Task → List ℕ
unresolved s task =
    sort_by leb (select (λ key. not (is_resolved (decision_of key s.decisions))) task.blocked_on)

-- `next((d for d in dependencies if p(by_id[d])), "")`: the search stops at the first match, which
-- stands under the identifier that was looked up.
unfoldable pub first_dependency :
    SchedulerSnapshot
    → (SchedulerTaskSnapshot → Bool)
    → List ℕ
    → PlanResult (Option SchedulerTaskSnapshot)
first_dependency s p [] = ok none
first_dependency s p (d ∷ ds) =
    let rest = first_dependency s p ds in
    elim (find_task d s.tasks) [
      | none ↦ err unknown_dependency
      | some item ↦ if p item then ok (some item) else rest
    ]

-- The verdict on one candidate.
pub data Verdict : Type 0 where
  ready : Task → Verdict
  to_review : Task → Verdict
  blocked : PlannedAction → Verdict
  skipped : Verdict

abbrev pub block : ℕ → ReasonCode → List Fact → PlanResult Verdict
block subject reason facts =
    ok (
      blocked
        (record { kind = execute_task; subject_id = subject; reason = reason; facts = facts }))

abbrev pub conflict_verdict : Task → List ℕ → PlanResult Verdict
conflict_verdict task [] = ok (ready task)
conflict_verdict task (c ∷ cs) =
    block task.id conflict_group_active
      (active_task_ids (c ∷ cs) ∷ in_conflict_group task.conflict_group ∷ [])

abbrev pub integration_verdict :
    SchedulerSnapshot → Task → PlanResult (Option SchedulerTaskSnapshot) → PlanResult Verdict
integration_verdict s task (err e) = err e
integration_verdict s task (ok (some d)) =
    block task.id task_integration_pending (dependency_id d.task.id ∷ [])
integration_verdict s task (ok none) =
    conflict_verdict task
      (select (λ id. not (id == task.id)) (active_conflicts s task.conflict_group))

abbrev pub dependency_verdict :
    SchedulerSnapshot
    → Task
    → List ℕ
    → PlanResult (Option SchedulerTaskSnapshot)
    → PlanResult Verdict
dependency_verdict s task dependencies (err e) = err e
dependency_verdict s task dependencies (ok (some d)) =
    block task.id dependency_pending (dependency_id d.task.id ∷ dependency_status d.status ∷ [])
dependency_verdict s task dependencies (ok none) =
    integration_verdict s task
      (first_dependency s (λ item. not (is_integrated item.integration_state)) dependencies)

abbrev pub decision_verdict : SchedulerSnapshot → Task → List ℕ → PlanResult Verdict
decision_verdict s task (k ∷ ks) = block task.id decision_open (decision_ids (k ∷ ks) ∷ [])
decision_verdict s task [] =
    dependency_verdict s task (sort_by leb task.depends_on)
      (first_dependency s (λ item. not (same_state item.status done)) (sort_by leb task.depends_on))

-- The body of the loop of `build_task_readiness`.
unfoldable pub classify : SchedulerSnapshot → SchedulerTaskSnapshot → PlanResult Verdict
unfolding unresolved first_dependency active_conflicts
classify s item =
    if same_state item.status review
    then ok (to_review item.task)
    else (if same_state item.status backlog || same_state item.status assigned
        then (if item.external_claim_active
            then block item.task.id external_claim_active (status_is item.status ∷ [])
            else decision_verdict s item.task (unresolved s item.task))
        else ok skipped)

pub record TaskReadiness : Type 0 where
  pub ready_tasks : List Task
  pub review_tasks : List Task
  pub blocked_actions : List PlannedAction

abbrev pub no_readiness : TaskReadiness
no_readiness = record { ready_tasks = []; review_tasks = []; blocked_actions = [] }

-- One verdict before the later ones; the lists are sorted at the end.
abbrev pub add_verdict : Verdict → TaskReadiness → TaskReadiness
add_verdict (ready t) r = record r { ready_tasks = t ∷ r.ready_tasks }
add_verdict (to_review t) r = record r { review_tasks = t ∷ r.review_tasks }
add_verdict (blocked a) r = record r { blocked_actions = a ∷ r.blocked_actions }
add_verdict skipped r = r

unfoldable pub classify_all : SchedulerSnapshot → List ℕ → PlanResult TaskReadiness
unfolding classify
classify_all s [] = ok no_readiness
classify_all s (id ∷ ids) =
    let rest = classify_all s ids in
    elim (find_task id s.tasks) [
      | none ↦ err unknown_candidate
      | some item ↦ elim (classify s item) [
        | err e ↦ err e
        | ok v ↦ elim rest [ err e ↦ err e | ok r ↦ ok (add_verdict v r) ]
      ]
    ]

-- `len(set(requested)) != len(requested)`
abbrev pub repeats : List ℕ → Bool
repeats [] = false
repeats (a ∷ rest) = member a rest || repeats rest

abbrev pub sort_readiness : TaskReadiness → TaskReadiness
sort_readiness r = record {
  ready_tasks = sort_by (λ a b. leb a.id b.id) r.ready_tasks;
  review_tasks = sort_by (λ a b. leb a.id b.id) r.review_tasks;
  blocked_actions = sort_by (λ a b. leb a.subject_id b.subject_id) r.blocked_actions;
}

-- `build_task_readiness`, for the given candidates
unfoldable pub build_task_readiness : SchedulerSnapshot → List ℕ → PlanResult TaskReadiness
unfolding classify_all
build_task_readiness s candidates =
    if any (λ id. not (is_some (find_task id s.tasks))) (sort_by leb candidates)
    then err unknown_candidate
    else (if repeats (sort_by leb candidates)
        then err repeated_candidate
        else elim (classify_all s (sort_by leb candidates)) [
          | err e ↦ err e
          | ok r ↦ ok (sort_readiness r)
        ])
