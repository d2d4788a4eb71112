-- ===== src/Planner/Permitted.antt =====
-- The actions that `build_continuation_plan` of src/dyro/continuation/planner.py selects.
use dyro_engineering_flow.Prelude.{
  ℕ, ◌≡◌, refl, not, any, and_true, sym, ap, subst, Bool, true, false, ◌||◌, ◌⊎◌, inl, inr, Option,
  none, some, List, [], ◌∷◌, ◌++◌, arith, All, All-append, All-weaken, All-map, map, ltb, ◌==◌,
  if◌then◌else◌,
}
use dyro_engineering_flow.Prelude.Sort.{All-sort_by}
use dyro_engineering_flow.Journal.Model.{
  ActionKind, ask_user, wait, execute_task, review_task, merge_task,
}
use dyro_engineering_flow.Planner.Model.{
  Operation, operation_rank, is_observe, execute_operation, review_operation, is_active_state, Task,
  SchedulerTaskSnapshot, SchedulerSnapshot, find_task, PlannedAction, action_le, ContinuationPlan,
  answer_required, no_progress, task_review_ready,
}
use dyro_engineering_flow.Planner.Readiness.{
  PlanResult, unknown_candidate, ok, err, TaskReadiness, build_task_readiness,
}
use dyro_engineering_flow.Planner.Ready.{IsReady}
use dyro_engineering_flow.Planner.Listed.{ok_injective}
use dyro_engineering_flow.Planner.Candidates.{MayRun, build_task_readiness-IsReady}
use dyro_engineering_flow.Planner.Plan.{
  PlanAnswer, planned, no_objective, no_readiness, Draft, action, target_complete, plan_scope,
  operation_allowed, offer, report, report_all, or_wait, start_draft, offered, drifted_draft,
  paused_draft, complete_draft, build_plan, finish, from_readiness, build_continuation_plan,
}

pub planned_injective : {p q : ContinuationPlan} → planned p ≡ planned q → p ≡ q
planned_injective {p} h = ap plan h
  where
    plan : PlanAnswer → ContinuationPlan
    plan (planned x) = x
    plan no_objective = p
    plan (no_readiness _) = p

pub report_all-split :
    (s : SchedulerSnapshot) (id : ℕ) (ids : List ℕ) (d d' : Draft)
    → report_all s (id ∷ ids) d ≡ ok d'
    → (item : SchedulerTaskSnapshot) × (report_all s ids (report item id d) ≡ ok d')
unfolding report_all
report_all-split s id ids d d' h = by (find_task id s.tasks) h
  where
    by :
        (o : Option SchedulerTaskSnapshot)
        → elim o [ none ↦ err unknown_candidate | some item ↦ report_all s ids (report item id d) ]
          ≡ ok d'
        → (item : SchedulerTaskSnapshot) × (report_all s ids (report item id d) ≡ ok d')
    by (some item) k = (item, k)
    by none k = ground arith

-- The Objective lets the engine do more than observe, and has the operation.
abbrev pub Allows : SchedulerSnapshot → Operation → Type 0
Allows s o =
    (is_observe s.objective_requested_mode ≡ false)
    × (any (λ p. operation_rank p == operation_rank o) s.objective_operations ≡ true)

operation_allowed-Allows :
    (s : SchedulerSnapshot) (o : Operation) → operation_allowed s o ≡ true → Allows s o
operation_allowed-Allows s o h = (not_true _ (and_true h).0, (and_true h).1)
  where
    not_true : (b : Bool) → not b ≡ true → b ≡ false
    not_true b k = ground arith

-- What an action of this kind on this subject needs.
abbrev pub Needs : SchedulerSnapshot → ActionKind → ℕ → Type 0
Needs s execute_task subject =
    Allows s execute_operation
    × (item : SchedulerTaskSnapshot) × (find_task subject s.tasks ≡ some item)
    × IsReady s item
Needs s review_task subject = Allows s review_operation
Needs s merge_task subject = ⊥
Needs s _ subject = Unit

abbrev pub IsPermitted : SchedulerSnapshot → PlannedAction → Type 0
IsPermitted s a = Needs s a.kind a.subject_id

module _ (s : SchedulerSnapshot) where
  offer-selected :
      (b : Bool) (accept refuse : Task → PlannedAction) (ts : List Task) (d : Draft)
      → (b ≡ true → All (λ t. IsPermitted s (accept t)) ts)
      → All (IsPermitted s) d.selected
      → All (IsPermitted s) (offer b accept refuse ts d).selected
  offer-selected true accept refuse ts d h k =
      All-append (IsPermitted s) d.selected (map accept ts) k
        (All-map (IsPermitted s) accept ts (h refl))
  offer-selected false accept refuse ts d h k = k

  All-review :
      (ts : List Task)
      → Allows s review_operation
      → All (λ t. IsPermitted s (action review_task t.id task_review_ready [])) ts
  All-review [] h = tt
  All-review (t ∷ ts) h = (h, All-review ts h)

  offered-selected :
      (r : TaskReadiness)
      → All (MayRun s) r.ready_tasks
      → All (IsPermitted s) (offered s r).selected
  offered-selected r h =
      offer-selected (operation_allowed s review_operation) _ _ r.review_tasks _
        (λ ok. All-review r.review_tasks (operation_allowed-Allows s review_operation ok))
        (offer-selected (operation_allowed s execute_operation) _ _ r.ready_tasks (start_draft s r)
          (λ ok.
            All-weaken _ _ r.ready_tasks
              (λ t (item, known, _, i).
                (operation_allowed-Allows s execute_operation ok, item, known, i))
              h)
          tt)

  report-selected_cases :
      (item : SchedulerTaskSnapshot) (id : ℕ) (d : Draft)
      → ((report item id d).selected ≡ d.selected)
        ⊎ ((report item id d).selected ≡ d.selected ++ action ask_user id answer_required [] ∷ [])
  report-selected_cases item id d = ground arith

  or_wait-selected_cases :
      (d : Draft)
      → ((or_wait s d).selected ≡ d.selected)
        ⊎ ((or_wait s d).selected ≡ action wait s.objective_id no_progress [] ∷ [])
  or_wait-selected_cases d = ground arith

  report-selected :
      (item : SchedulerTaskSnapshot) (id : ℕ) (d : Draft)
      → All (IsPermitted s) d.selected
      → All (IsPermitted s) (report item id d).selected
  report-selected item id d h = elim (report-selected_cases item id d) [
    | inl e ↦ subst (All (IsPermitted s)) (sym e) h
    | inr e ↦ subst (All (IsPermitted s)) (sym e) (
        All-append (IsPermitted s) d.selected (action ask_user id answer_required [] ∷ []) h
          (tt, tt))
  ]

  report_all-selected :
      (ids : List ℕ) (d d' : Draft)
      → report_all s ids d ≡ ok d'
      → All (IsPermitted s) d.selected
      → All (IsPermitted s) d'.selected
  unfolding report_all
  report_all-selected [] d d' h k = subst (λ x. All (IsPermitted s) x.selected) (ok_injective h) k
  report_all-selected (id ∷ ids) d d' h k =
      let (item, rest) = report_all-split s id ids d d' h in
      report_all-selected ids (report item id d) d' rest (report-selected item id d k)

  or_wait-selected :
      (d : Draft) → All (IsPermitted s) d.selected → All (IsPermitted s) (or_wait s d).selected
  or_wait-selected d h = elim (or_wait-selected_cases d) [
    | inl e ↦ subst (All (IsPermitted s)) (sym e) h
    | inr e ↦ subst (All (IsPermitted s)) (sym e) (tt, tt)
  ]

module _ (digest : (objective_id snapshot_sha256 : ℕ) → Draft → ℕ) (s : SchedulerSnapshot) where
  build_plan-selected :
      (d : Draft)
      → All (IsPermitted s) d.selected
      → All (IsPermitted s) (build_plan digest s d).selected_actions
  unfolding build_plan
  build_plan-selected d h = All-sort_by action_le (IsPermitted s) d.selected h

  finish-selected :
      (r : PlanResult Draft) (p : ContinuationPlan)
      → ((d : Draft) → r ≡ ok d → All (IsPermitted s) d.selected)
      → finish digest s r ≡ planned p
      → All (IsPermitted s) p.selected_actions
  finish-selected (ok d) p f h =
      subst (λ x. All (IsPermitted s) x.selected_actions) (planned_injective h)
        (build_plan-selected (or_wait s d) (or_wait-selected s d (f d refl)))
  finish-selected (err e) p f h = ground arith

  from_readiness-selected :
      (r : PlanResult TaskReadiness) (p : ContinuationPlan)
      → ((t : TaskReadiness) → r ≡ ok t → All (MayRun s) t.ready_tasks)
      → from_readiness digest s r ≡ planned p
      → All (IsPermitted s) p.selected_actions
  from_readiness-selected (ok t) p f h =
      finish-selected (report_all s (plan_scope s) (offered s t)) p
        (λ d e.
          report_all-selected s (plan_scope s) (offered s t) d e (offered-selected s t (f t refl)))
        h
  from_readiness-selected (err e) p f h = ground arith

  -- A plan selects only what it may: an execution only of a task that may run, where the mode of
  -- the Objective is not to observe and its operations hold `execute`; a review only where they
  -- hold `review`; and never a merge.
  pub build_continuation_plan-IsPermitted :
      {p : ContinuationPlan}
      → build_continuation_plan digest s ≡ planned p
      → All (IsPermitted s) p.selected_actions
  unfolding build_continuation_plan
  build_continuation_plan-IsPermitted {p} h =
      by (s.objective_id == 0 || ltb s.objective_revision 1) s.objective_drifted
        (is_active_state s.objective_state) (target_complete s) h
    where
      built :
          (d : Draft)
          → All (IsPermitted s) d.selected
          → planned (build_plan digest s d) ≡ planned p
          → All (IsPermitted s) p.selected_actions
      built d k e =
          subst (λ x. All (IsPermitted s) x.selected_actions) (planned_injective e)
            (build_plan-selected d k)

      by :
          (a b c d : Bool)
          → (if a
              then no_objective
              else (if b
                  then planned (build_plan digest s (drifted_draft s))
                  else (if c
                      then (if d
                          then planned (build_plan digest s (complete_draft s))
                          else from_readiness digest s (build_task_readiness s (plan_scope s)))
                      else planned (build_plan digest s (paused_draft s)))))
            ≡ planned p
          → All (IsPermitted s) p.selected_actions
      by true b c d e = ground arith
      by false true c d e = built (drifted_draft s) (tt, tt) e
      by false false true true e = built (complete_draft s) (tt, tt) e
      by false false true false e =
          from_readiness-selected (build_task_readiness s (plan_scope s)) p
            (λ t k. (build_task_readiness-IsReady s (plan_scope s) k).0) e
      by false false false d e = built (paused_draft s) (tt, tt) e
