-- ===== src/Planner/Tests.antt =====
-- The planner's theorems at a snapshot of two tasks, the second waiting for the first.
use dyro_engineering_flow.Prelude.{
  ℕ, ◌≡◌, ◌↔◌, refl, true, false, some, [], ◌∷◌, All, any, member, ◌==◌,
}
use dyro_engineering_flow.Prelude.Sort.{sort_by}
use dyro_engineering_flow.Planner.Model.{
  objective_revision_is, task_ready, ContinuationPlan, plan_complete, active_state, supervised,
  execute_operation, incomplete, dependency_pending, dependency_id, dependency_status, backlog,
  not_required, local, Task, SchedulerTaskSnapshot, SchedulerSnapshot, find_task,
}
use dyro_engineering_flow.Journal.Model.{execute_task}
use dyro_engineering_flow.Planner.Readiness.{
  ok, ready, classify, TaskReadiness, build_task_readiness,
}
use dyro_engineering_flow.Planner.Ready.{IsReady, classify-iff-IsReady}
use dyro_engineering_flow.Planner.Plan.{Draft, planned, build_continuation_plan}
use dyro_engineering_flow.Planner.Permitted.{IsPermitted, build_continuation_plan-IsPermitted}
use dyro_engineering_flow.Planner.Delivered.{IsDelivered}
use dyro_engineering_flow.Planner.Complete.{is_silent, build_continuation_plan_complete}
use dyro_engineering_flow.Planner.Candidates.{MayRun, IsListed, build_task_readiness-IsReady}

abbrev first_task : Task
first_task = record {
  id = 1;
  line = 5;
  is_write = true;
  executor = 30;
  reviewer = 31;
  depends_on = [];
  blocked_on = [];
  conflict_group = 8;
}

abbrev second_task : Task
second_task = record first_task { id = 2; depends_on = 1 ∷ [] }

abbrev waiting : Task → SchedulerTaskSnapshot
waiting t = record {
  task = t;
  status = backlog;
  external_claim_active = false;
  integration_state = not_required;
}

abbrev snapshot : SchedulerSnapshot
snapshot = record {
  tasks = waiting first_task ∷ waiting second_task ∷ [];
  decisions = [];
  execution_mode = local;
  candidate_ids = 1 ∷ 2 ∷ [];
  snapshot_sha256 = 77;
  objective_id = 1;
  objective_revision = 1;
  objective_state = active_state;
  objective_scope = 1 ∷ 2 ∷ [];
  objective_targets = 2 ∷ [];
  objective_requested_mode = supervised;
  objective_operations = execute_operation ∷ [];
  objective_drifted = false;
  decayed_merge_subjects = [];
}

classify-iff-IsReady_example :
    (classify snapshot (waiting first_task) ≡ ok (ready first_task))
    ↔ IsReady snapshot (waiting first_task)
classify-iff-IsReady_example = classify-iff-IsReady snapshot (waiting first_task)

abbrev readiness : TaskReadiness
readiness = record {
  ready_tasks = first_task ∷ [];
  review_tasks = [];
  blocked_actions =
      record {
        kind = execute_task;
        subject_id = 2;
        reason = dependency_pending;
        facts = dependency_id 1 ∷ dependency_status backlog ∷ [];
      }
      ∷ [];
}

answered : build_task_readiness snapshot (2 ∷ 1 ∷ []) ≡ ok readiness
unfolding build_task_readiness sort_by find_task
answered = refl

build_task_readiness-IsReady_example :
    All (MayRun snapshot) readiness.ready_tasks
    × IsListed (2 ∷ 1 ∷ []) readiness.ready_tasks
    × ((id : ℕ) (item : SchedulerTaskSnapshot)
        → member id (2 ∷ 1 ∷ []) ≡ true
        → find_task id snapshot.tasks ≡ some item
        → IsReady snapshot item
        → any (λ t. t.id == id) readiness.ready_tasks ≡ true)
build_task_readiness-IsReady_example = build_task_readiness-IsReady snapshot (2 ∷ 1 ∷ []) answered

abbrev digest : ℕ → ℕ → Draft → ℕ
digest objective sha d = 9

abbrev plan : ContinuationPlan
plan = record {
  objective_id = 1;
  snapshot_sha256 = 77;
  plan_sha256 = 9;
  completion = incomplete;
  selected_actions =
      record { kind = execute_task; subject_id = 1; reason = task_ready; facts = [] } ∷ [];
  blocked = readiness.blocked_actions;
  attention = [];
  facts = objective_revision_is 1 ∷ [];
}

plan_built : build_continuation_plan digest snapshot ≡ planned plan
unfolding build_continuation_plan sort_by find_task
plan_built = refl

build_continuation_plan-IsPermitted_example : All (IsPermitted snapshot) plan.selected_actions
build_continuation_plan-IsPermitted_example =
    build_continuation_plan-IsPermitted digest snapshot plan_built

build_continuation_plan_complete_example :
    (is_silent plan ≡ false) × ((plan.completion ≡ plan_complete) ↔ IsDelivered snapshot)
build_continuation_plan_complete_example =
    build_continuation_plan_complete digest snapshot plan_built
