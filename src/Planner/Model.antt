-- ===== src/Planner/Model.antt =====
-- What the planner reads and writes: tasks (src/dyro/tasks.py), the snapshot
-- (src/dyro/continuation/snapshot.py) and planned actions (src/dyro/continuation/models.py).
-- Identifiers and digests are numbers, 0 for the empty text, in the order of the texts.
use dyro_engineering_flow.Prelude.{
  ℕ, Bool, ◌||◌, ◌&&◌, Option, none, some, List, [], ◌∷◌, ltb, leb, ◌==◌, if◌then◌else◌,
}
use dyro_engineering_flow.Journal.Model.{
  ActionKind, execute_task, review_task, merge_task, probe_trigger, wait, ask_user, pause, complete,
  repair_required,
}

-- `STATUSES` of tasks.py
pub data Status : Type 0 where
  backlog assigned in_progress waiting_answer review review_pending_signoff done failed : Status

abbrev pub status_rank : Status → ℕ
status_rank backlog = 0
status_rank assigned = 1
status_rank in_progress = 2
status_rank waiting_answer = 3
status_rank review = 4
status_rank review_pending_signoff = 5
status_rank done = 6
status_rank failed = 7

abbrev pub same_state : Status → Status → Bool
same_state a b = status_rank a == status_rank b

pub data IntegrationState : Type 0 where
  not_required not_inspected integrated pending : IntegrationState

abbrev pub is_integrated : IntegrationState → Bool
is_integrated integrated = Bool.true
is_integrated _ = Bool.false

pub data ExecutionMode : Type 0 where
  local external : ExecutionMode

abbrev pub is_external : ExecutionMode → Bool
is_external external = Bool.true
is_external local = Bool.false

-- The fields of `Task` that the scheduler reads; a risk is whether it is `write`.
pub record Task : Type 0 where
  pub id : ℕ
  pub line : ℕ
  pub is_write : Bool
  pub executor : ℕ
  pub reviewer : ℕ
  pub depends_on : List ℕ
  pub blocked_on : List ℕ
  pub conflict_group : ℕ

pub record SchedulerTaskSnapshot : Type 0 where
  pub task : Task
  pub status : Status
  pub external_claim_active : Bool
  pub integration_state : IntegrationState

pub data RequestedMode : Type 0 where
  observe supervised automatic : RequestedMode

abbrev pub is_observe : RequestedMode → Bool
is_observe observe = Bool.true
is_observe _ = Bool.false

pub data Operation : Type 0 where
  execute_operation review_operation merge_operation : Operation

abbrev pub operation_rank : Operation → ℕ
operation_rank execute_operation = 0
operation_rank review_operation = 1
operation_rank merge_operation = 2

-- The state that the operator gave an Objective, which is `active` or another text.
pub data OperatorState : Type 0 where
  active_state : OperatorState
  other_state : ℕ → OperatorState

abbrev pub is_active_state : OperatorState → Bool
is_active_state active_state = Bool.true
is_active_state (other_state _) = Bool.false

-- The fields of `SchedulerSnapshot` but the instant, which no decision reads. A decision stands
-- with whether its state is `resolved`.
pub record SchedulerSnapshot : Type 0 where
  pub tasks : List SchedulerTaskSnapshot
  pub decisions : List (ℕ × Bool)
  pub execution_mode : ExecutionMode
  pub candidate_ids : List ℕ
  pub snapshot_sha256 : ℕ
  pub objective_id : ℕ
  pub objective_revision : ℕ
  pub objective_state : OperatorState
  pub objective_scope : List ℕ
  pub objective_targets : List ℕ
  pub objective_requested_mode : RequestedMode
  pub objective_operations : List Operation
  pub objective_drifted : Bool
  pub decayed_merge_subjects : List ℕ

-- `tasks_by_id`: of two tasks with one identifier the last stands in the dictionary.
unfoldable pub find_task : ℕ → List SchedulerTaskSnapshot → Option SchedulerTaskSnapshot
find_task k [] = none
find_task k (item ∷ items) = elim (find_task k items) [
  | some found ↦ some found
  | none ↦ if item.task.id == k then some item else none
]

-- `dict(snapshot.decisions).get(key) == "resolved"`: of two entries the last stands.
unfoldable pub decision_of : ℕ → List (ℕ × Bool) → Option Bool
decision_of k [] = none
decision_of k ((key, resolved) ∷ rest) = elim (decision_of k rest) [
  | some found ↦ some found
  | none ↦ if key == k then some resolved else none
]

pub data ReasonCode : Type 0 where
  task_ready task_review_ready dependency_pending decision_open answer_required : ReasonCode
  external_claim_active conflict_group_active task_integration_pending task_failed : ReasonCode
  trigger_not_due budget_exhausted no_progress contract_drift action_uncertain : ReasonCode
  targets_integrated objective_scope_conflict objective_paused activation_required : ReasonCode
  policy_disallows_operation proof_decayed : ReasonCode

-- A fact of an action: its key, and the value before it is printed.
pub data Fact : Type 0 where
  status_is : Status → Fact
  decision_ids : List ℕ → Fact
  dependency_id : ℕ → Fact
  dependency_status : Status → Fact
  in_conflict_group : ℕ → Fact
  active_task_ids : List ℕ → Fact
  resource_class : ℕ → Fact
  selected_subject_id : ℕ → Fact
  max_parallel_is active_parallel_is available_parallel_is : ℕ → Fact
  operator_state : OperatorState → Fact
  requested_mode : RequestedMode → Fact
  operation_is : Operation → Fact
  status_decayed : Fact
  objective_revision_is : ℕ → Fact

pub record PlannedAction : Type 0 where
  pub kind : ActionKind
  pub subject_id : ℕ
  pub reason : ReasonCode
  pub facts : List Fact

-- The place of `kind.value` in the order of the texts.
abbrev pub kind_rank : ActionKind → ℕ
kind_rank ask_user = 0
kind_rank complete = 1
kind_rank execute_task = 2
kind_rank merge_task = 3
kind_rank pause = 4
kind_rank probe_trigger = 5
kind_rank repair_required = 6
kind_rank review_task = 7
kind_rank wait = 8

-- The order of the keys `(item.kind.value, item.subject_id)`.
abbrev pub action_le : PlannedAction → PlannedAction → Bool
action_le a b =
    ltb (kind_rank a.kind) (kind_rank b.kind)
    || (kind_rank a.kind == kind_rank b.kind && leb a.subject_id b.subject_id)

pub data PlanCompletion : Type 0 where
  incomplete plan_complete plan_repair : PlanCompletion

pub data AttentionKind : Type 0 where
  needs_repair needs_user ready_for paused_for waiting_for : AttentionKind

-- The prefixes of `AttentionItem.id`, in the order of the texts; the subject follows.
pub data AttentionTag : Type 0 where
  answer failed_task paused proof_decayed_task repair : AttentionTag

abbrev pub tag_rank : AttentionTag → ℕ
tag_rank answer = 0
tag_rank failed_task = 1
tag_rank paused = 2
tag_rank proof_decayed_task = 3
tag_rank repair = 4

pub record AttentionItem : Type 0 where
  pub tag : AttentionTag
  pub kind : AttentionKind
  pub subject_id : ℕ
  pub reason : ReasonCode
  pub facts : List Fact

abbrev pub attention_le : AttentionItem → AttentionItem → Bool
attention_le a b =
    ltb (tag_rank a.tag) (tag_rank b.tag)
    || (tag_rank a.tag == tag_rank b.tag && leb a.subject_id b.subject_id)

-- `ContinuationPlan`; `next_wake_at` is never set here.
pub record ContinuationPlan : Type 0 where
  pub objective_id : ℕ
  pub snapshot_sha256 : ℕ
  pub plan_sha256 : ℕ
  pub completion : PlanCompletion
  pub selected_actions : List PlannedAction
  pub blocked : List PlannedAction
  pub attention : List AttentionItem
  pub facts : List Fact
