-- ===== src/Engine/Tests.antt =====
-- The scheduler tick at a plan of three mutations, of which two want one agent.
use dyro_engineering_flow.Prelude.{
  Bool, leb, ◌&&◌, ℕ, ◌+◌, ◌-◌, ◌≤◌, ◌≡◌, refl, true, false, [], ◌∷◌, arith, All, Pairwise, length,
  sum_by, select,
}
use dyro_engineering_flow.Prelude.Sort.{sort_by}
use dyro_engineering_flow.Journal.Model.{is_mutating, execute_task, review_task}
use dyro_engineering_flow.Planner.Model.{
  active_state, supervised, execute_operation, incomplete, review, backlog, not_required, local,
  task_ready, task_review_ready, resource_class, selected_subject_id, Task, SchedulerSnapshot,
  PlannedAction, ContinuationPlan, find_task, action_le,
}
use dyro_engineering_flow.Engine.Tick.{
  err, tick_invalid, repeats, ok, resource_conflict, active_parallel, SchedulerTick,
  build_scheduler_tick,
}
use dyro_engineering_flow.Engine.Checks.{tick_accepted}
use dyro_engineering_flow.Engine.Accepted.{build_scheduler_tick_accepted}
use dyro_engineering_flow.Engine.Wave.{Disjoint, Explained}
use dyro_engineering_flow.Engine.Ticks.{build_scheduler_tick-IsSafe, build_scheduler_tick-partition}
use dyro_engineering_flow.Engine.Total.{build_scheduler_tick_total}

abbrev task_by : ℕ → ℕ → ℕ → Task
task_by id executor reviewer = record {
  id = id;
  line = 5;
  is_write = true;
  executor = executor;
  reviewer = reviewer;
  depends_on = [];
  blocked_on = [];
  conflict_group = 0;
}

abbrev snapshot : SchedulerSnapshot
snapshot = record {
  tasks =
      record {
        task = task_by 1 30 31;
        status = backlog;
        external_claim_active = false;
        integration_state = not_required;
      }
      ∷ record {
        task = task_by 2 30 31;
        status = backlog;
        external_claim_active = false;
        integration_state = not_required;
      }
      ∷ record {
        task = task_by 3 32 33;
        status = review;
        external_claim_active = false;
        integration_state = not_required;
      }
      ∷ [];
  decisions = [];
  execution_mode = local;
  candidate_ids = 1 ∷ 2 ∷ 3 ∷ [];
  snapshot_sha256 = 77;
  objective_id = 1;
  objective_revision = 1;
  objective_state = active_state;
  objective_scope = 1 ∷ 2 ∷ 3 ∷ [];
  objective_targets = 2 ∷ [];
  objective_requested_mode = supervised;
  objective_operations = execute_operation ∷ [];
  objective_drifted = false;
  decayed_merge_subjects = [];
}

abbrev execute_one : PlannedAction
execute_one = record { kind = execute_task; subject_id = 1; reason = task_ready; facts = [] }

abbrev execute_two : PlannedAction
execute_two = record { kind = execute_task; subject_id = 2; reason = task_ready; facts = [] }

abbrev review_three : PlannedAction
review_three = record { kind = review_task; subject_id = 3; reason = task_review_ready; facts = [] }

abbrev plan : ContinuationPlan
plan = record {
  objective_id = 1;
  snapshot_sha256 = 77;
  plan_sha256 = 78;
  completion = incomplete;
  selected_actions = review_three ∷ execute_two ∷ execute_one ∷ [];
  blocked = [];
  attention = [];
  facts = [];
}

abbrev tick : SchedulerTick
tick = record {
  objective_id = 1;
  snapshot_sha256 = 77;
  plan_sha256 = 78;
  max_parallel = 2;
  active_parallel = 0;
  available_parallel = 2;
  wave = execute_one ∷ review_three ∷ [];
  deferred =
      record {
        action = execute_two;
        reason = resource_conflict;
        facts = resource_class 0 ∷ selected_subject_id 1 ∷ [];
      }
      ∷ [];
  non_mutating_actions = [];
}

abbrev is_digest : ℕ → Bool
is_digest n = leb 70 n && leb n 79

-- A digest of another form ends the call.
malformed :
    build_scheduler_tick is_digest snapshot (record plan { plan_sha256 = 80 }) 2 ≡ err tick_invalid
unfolding build_scheduler_tick sort_by find_task
malformed = refl

answered : build_scheduler_tick is_digest snapshot plan 2 ≡ ok tick
unfolding build_scheduler_tick sort_by find_task
answered = refl

build_scheduler_tick-IsSafe_example :
    (length tick.wave ≤ 2 - active_parallel snapshot)
    × Pairwise (Disjoint snapshot) tick.wave
    × All (Explained snapshot (2 - active_parallel snapshot) tick.wave) tick.deferred
build_scheduler_tick-IsSafe_example = build_scheduler_tick-IsSafe is_digest snapshot plan 2 answered

build_scheduler_tick-partition_example :
    sum_by (λ a. a.subject_id) tick.wave
      + sum_by (λ d. d.action.subject_id) tick.deferred
      + sum_by (λ a. a.subject_id) tick.non_mutating_actions
    ≡ sum_by (λ a. a.subject_id) plan.selected_actions
build_scheduler_tick-partition_example =
    build_scheduler_tick-partition is_digest snapshot plan 2 (λ a. a.subject_id) answered

distinct :
    repeats (select (λ a. is_mutating a.kind) (sort_by action_le plan.selected_actions)) ≡ false
unfolding sort_by
distinct = refl

build_scheduler_tick_total_example :
    (t : SchedulerTick) × (build_scheduler_tick is_digest snapshot plan 2 ≡ ok t)
unfolding find_task
build_scheduler_tick_total_example =
    build_scheduler_tick_total snapshot is_digest plan 2 (λ h. ground arith) refl refl refl refl
      (omega arith) distinct refl

build_scheduler_tick_accepted_example : tick_accepted is_digest tick ≡ true
build_scheduler_tick_accepted_example =
    build_scheduler_tick_accepted is_digest snapshot plan 2 answered
