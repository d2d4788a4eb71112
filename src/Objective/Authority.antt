-- ===== src/Objective/Authority.antt =====
-- What src/dyro/continuation/store.py asks of the stored Objective before an action is kept.
use dyro_engineering_flow.Prelude.{
  ℕ, Bool, true, false, not, ◌&&◌, Option, none, some, List, [], ◌==◌, any, select, member,
}
use dyro_engineering_flow.Budget.Model.{BudgetLimit}
use dyro_engineering_flow.Journal.Model.{
  ActionKind, execute_task, review_task, merge_task, uncertain, same_status, ActionIntent,
  ActionRecord, record_status,
}
use dyro_engineering_flow.Journal.Store.{
  objective_inactive, objective_observes, intent_unbound, subject_outside, operation_unauthorized,
  actions_unresolved, M, reads, ◌>>=◌, ◌>>◌, guard,
}
use dyro_engineering_flow.Journal.Actions.{list_records}
use dyro_engineering_flow.Planner.Model.{
  RequestedMode, is_observe, Operation, execute_operation, review_operation, merge_operation,
  operation_rank, OperatorState, is_active_state,
}

-- The fields of `Objective` that are read here.
pub record Objective : Type 0 where
  pub id : ℕ
  pub requested_mode : RequestedMode
  pub operations : List Operation
  pub budget : BudgetLimit

pub record StoredObjective : Type 0 where
  pub objective : Objective
  pub revision : ℕ
  pub operator_state : OperatorState
  pub scope : List ℕ
  pub scope_sha256 : ℕ
  pub event_seq : ℕ
  pub event_sha256 : ℕ

-- `owns_mutation_scope`
abbrev pub owns_mutation_scope : StoredObjective → Bool
owns_mutation_scope r =
    is_active_state r.operator_state && not (is_observe r.objective.requested_mode)

-- `_require_actionable_objective`, on the record that it reads
abbrev pub require_actionable_objective : StoredObjective → M (Unit {0})
require_actionable_objective r = do
  guard (is_active_state r.operator_state) objective_inactive
  guard (owns_mutation_scope r) objective_observes

abbrev pub required_operation : ActionKind → Option Operation
required_operation execute_task = some execute_operation
required_operation review_task = some review_operation
required_operation merge_task = some merge_operation
required_operation _ = none

abbrev pub grants : Option Operation → List Operation → Bool
grants none operations = false
grants (some o) operations = any (λ p. operation_rank p == operation_rank o) operations

abbrev pub is_bound : StoredObjective → ActionIntent → Bool
is_bound r i =
    i.objective_id == r.objective.id
    && i.objective_revision == r.revision
    && i.objective_event_seq == r.event_seq
    && i.objective_event_sha256 == r.event_sha256
    && i.scope_sha256 == r.scope_sha256

-- `_assert_action_is_authorized`
abbrev pub assert_action_is_authorized : StoredObjective → ActionIntent → M (Unit {0})
assert_action_is_authorized r i = do
  guard (is_bound r i) intent_unbound
  guard (member i.subject_id r.scope) subject_outside
  guard (grants (required_operation i.operation) r.objective.operations) operation_unauthorized

abbrev pub is_uncertain : ActionRecord → Bool
is_uncertain r = same_status (record_status r) uncertain

abbrev pub is_empty : List ActionRecord → Bool
is_empty [] = true
is_empty _ = false

-- `_assert_no_unresolved_actions`, with `_unresolved_actions`
unfoldable pub assert_no_unresolved_actions : M (Unit {0})
unfolding record_status
assert_no_unresolved_actions = do
  records ← reads list_records
  guard (is_empty (select is_uncertain records)) actions_unresolved
