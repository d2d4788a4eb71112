-- ===== src/Planner/Plan.antt =====
-- `build_continuation_plan` and `_build_plan` of src/dyro/continuation/planner.py. The digest of a
-- plan (SHA-256 of its canonical JSON) is a parameter.
use dyro_engineering_flow.Prelude.{
  ℕ, Bool, true, false, not, ◌&&◌, ◌||◌, Option, none, some, List, [], ◌∷◌, ◌++◌, ltb, leb, ◌==◌,
  any, all, select, map, member, if◌then◌else◌,
}
use dyro_engineering_flow.Prelude.Sort.{sort_by}
use dyro_engineering_flow.Journal.Model.{
  ActionKind, execute_task, review_task, merge_task, wait, ask_user, pause, complete,
  repair_required,
}
use dyro_engineering_flow.Planner.Model.{
  done, failed, waiting_answer, same_state, not_inspected, is_integrated, is_observe, Operation,
  execute_operation, review_operation, operation_rank, is_active_state, Task, SchedulerTaskSnapshot,
  SchedulerSnapshot, find_task, ReasonCode, task_ready, task_review_ready, answer_required,
  task_failed, task_integration_pending, no_progress, contract_drift, targets_integrated,
  objective_paused, policy_disallows_operation, proof_decayed, Fact, operator_state, requested_mode,
  operation_is, status_decayed, objective_revision_is, PlannedAction, action_le, PlanCompletion,
  incomplete, plan_complete, plan_repair, needs_repair, needs_user, paused_for, AttentionKind,
  AttentionTag, answer, failed_task, paused, proof_decayed_task, repair, AttentionItem,
  attention_le, ContinuationPlan,
}
use dyro_engineering_flow.Planner.Readiness.{
  PlanError, unknown_candidate, PlanResult, ok, err, TaskReadiness, build_task_readiness,
}

-- The plan is refused without an Objective and its revision.
pub data PlanAnswer : Type 0 where
  planned : ContinuationPlan → PlanAnswer
  no_objective : PlanAnswer
  no_readiness : PlanError → PlanAnswer

abbrev pub action : ActionKind → ℕ → ReasonCode → List Fact → PlannedAction
action kind subject reason facts = record {
  kind = kind;
  subject_id = subject;
  reason = reason;
  facts = facts;
}

abbrev pub attend : AttentionTag → AttentionKind → ℕ → ReasonCode → List Fact → AttentionItem
attend tag kind subject reason facts = record {
  tag = tag;
  kind = kind;
  subject_id = subject;
  reason = reason;
  facts = facts;
}

-- What one plan holds, before it is sorted.
pub record Draft : Type 0 where
  pub completion : PlanCompletion
  pub selected : List PlannedAction
  pub blocked : List PlannedAction
  pub attention : List AttentionItem
  pub facts : List Fact

-- `decayed_attention`
unfoldable pub decayed_attention : SchedulerSnapshot → List AttentionItem
decayed_attention s =
    map (λ id. attend proof_decayed_task needs_user id proof_decayed (status_decayed ∷ []))
      (select (λ id. member id s.objective_scope || member id s.objective_targets)
        s.decayed_merge_subjects)

-- A target that is known, done and integrated.
abbrev pub is_delivered : Option SchedulerTaskSnapshot → Bool
is_delivered none = false
is_delivered (some item) = same_state item.status done && is_integrated item.integration_state

unfoldable pub target_complete : SchedulerSnapshot → Bool
target_complete s = all (λ id. is_delivered (find_task id s.tasks)) s.objective_targets

-- `sorted(set(objective_scope) & set(candidate_ids))`
abbrev pub distinct : List ℕ → List ℕ
distinct [] = []
distinct (a ∷ rest) = let others = distinct rest in if member a others then others else a ∷ others

unfoldable pub plan_scope : SchedulerSnapshot → List ℕ
plan_scope s = sort_by leb (distinct (select (λ id. member id s.candidate_ids) s.objective_scope))

-- `execute_allowed` and `review_allowed`
abbrev pub operation_allowed : SchedulerSnapshot → Operation → Bool
operation_allowed s o =
    not (is_observe s.objective_requested_mode)
    && any (λ p. operation_rank p == operation_rank o) s.objective_operations

abbrev pub refused : SchedulerSnapshot → Operation → ActionKind → Task → PlannedAction
refused s o kind t =
    action kind t.id policy_disallows_operation
      (operation_is o ∷ requested_mode s.objective_requested_mode ∷ [])

-- The tasks of one operation: selected if it is allowed, blocked if not.
abbrev pub offer :
    Bool → (Task → PlannedAction) → (Task → PlannedAction) → List Task → Draft → Draft
offer true accept refuse ts d = record d { selected = d.selected ++ map accept ts }
offer false accept refuse ts d = record d { blocked = d.blocked ++ map refuse ts }

-- The body of the loop over the scope.
abbrev pub report_failed : SchedulerTaskSnapshot → ℕ → Draft → Draft
report_failed item id d =
    if same_state item.status failed
    then record d {
      attention = d.attention ++ attend failed_task needs_user id task_failed [] ∷ [];
    }
    else (if same_state item.status done && not (is_integrated item.integration_state)
        then record d {
          blocked =
              d.blocked
              ++ action (elim item.integration_state [ not_inspected ↦ wait | _ ↦ merge_task ]) id
                  task_integration_pending []
                ∷ [];
        }
        else d)

abbrev pub report : SchedulerTaskSnapshot → ℕ → Draft → Draft
report item id d =
    if same_state item.status waiting_answer
    then record d {
      selected = d.selected ++ action ask_user id answer_required [] ∷ [];
      attention = d.attention ++ attend answer needs_user id answer_required [] ∷ [];
    }
    else report_failed item id d

unfoldable pub report_all : SchedulerSnapshot → List ℕ → Draft → PlanResult Draft
report_all s [] d = ok d
report_all s (id ∷ ids) d = elim (find_task id s.tasks) [
  | none ↦ err unknown_candidate
  | some item ↦ report_all s ids (report item id d)
]

-- `if not selected and not blocked and not attention`
abbrev pub is_empty {ℓ} : {A : Type ℓ} → List A → Bool
is_empty [] = true
is_empty (_ ∷ _) = false

abbrev pub or_wait : SchedulerSnapshot → Draft → Draft
or_wait s d =
    if is_empty d.selected && is_empty d.blocked && is_empty d.attention
    then record d { selected = action wait s.objective_id no_progress [] ∷ [] }
    else d

abbrev pub start_draft : SchedulerSnapshot → TaskReadiness → Draft
start_draft s r = record {
  completion = incomplete;
  selected = [];
  blocked = r.blocked_actions;
  attention = decayed_attention s;
  facts = objective_revision_is s.objective_revision ∷ [];
}

abbrev pub offered : SchedulerSnapshot → TaskReadiness → Draft
offered s r =
    offer (operation_allowed s review_operation) (λ t. action review_task t.id task_review_ready [])
      (refused s review_operation review_task) r.review_tasks
      (offer (operation_allowed s execute_operation) (λ t. action execute_task t.id task_ready [])
        (refused s execute_operation execute_task) r.ready_tasks (start_draft s r))

abbrev pub drifted_draft : SchedulerSnapshot → Draft
drifted_draft s = record {
  completion = plan_repair;
  selected = action repair_required s.objective_id contract_drift [] ∷ [];
  blocked = [];
  attention = attend repair needs_repair s.objective_id contract_drift [] ∷ [];
  facts = [];
}

abbrev pub paused_draft : SchedulerSnapshot → Draft
paused_draft s = record {
  completion = incomplete;
  selected = action pause s.objective_id objective_paused [] ∷ [];
  blocked = [];
  attention =
      attend paused paused_for s.objective_id objective_paused
        (operator_state s.objective_state ∷ [])
      ∷ [];
  facts = [];
}

abbrev pub complete_draft : SchedulerSnapshot → Draft
complete_draft s = record {
  completion = plan_complete;
  selected = action complete s.objective_id targets_integrated [] ∷ [];
  blocked = [];
  attention = decayed_attention s;
  facts = [];
}

module _ (digest : (objective_id snapshot_sha256 : ℕ) → Draft → ℕ) where
  -- `_build_plan`: everything is sorted, and the digest is over what was sorted.
  unfoldable pub build_plan : SchedulerSnapshot → Draft → ContinuationPlan
  unfolding sort_by
  build_plan s d =
      let sorted : Draft = record d {
        selected = sort_by action_le d.selected;
        blocked = sort_by action_le d.blocked;
        attention = sort_by attention_le d.attention;
      } in
      record {
        objective_id = s.objective_id;
        snapshot_sha256 = s.snapshot_sha256;
        plan_sha256 = digest s.objective_id s.snapshot_sha256 sorted;
        completion = sorted.completion;
        selected_actions = sorted.selected;
        blocked = sorted.blocked;
        attention = sorted.attention;
        facts = sorted.facts;
      }

  abbrev pub finish : SchedulerSnapshot → PlanResult Draft → PlanAnswer
  finish s (err e) = no_readiness e
  finish s (ok d) = planned (build_plan s (or_wait s d))

  abbrev pub from_readiness : SchedulerSnapshot → PlanResult TaskReadiness → PlanAnswer
  from_readiness s (err e) = no_readiness e
  from_readiness s (ok r) = finish s (report_all s (plan_scope s) (offered s r))

  -- `build_continuation_plan`
  unfoldable pub build_continuation_plan : SchedulerSnapshot → PlanAnswer
  unfolding build_plan decayed_attention target_complete plan_scope report_all build_task_readiness
  build_continuation_plan s =
      if s.objective_id == 0 || ltb s.objective_revision 1
      then no_objective
      else (if s.objective_drifted
          then planned (build_plan s (drifted_draft s))
          else (if is_active_state s.objective_state
              then (if target_complete s
                  then planned (build_plan s (complete_draft s))
                  else from_readiness s (build_task_readiness s (plan_scope s)))
              else planned (build_plan s (paused_draft s))))
