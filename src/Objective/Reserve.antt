-- ===== src/Objective/Reserve.antt =====
-- `reserve_supervised_objective_action`, `start_objective_action` and
-- `record_objective_action_receipt` of src/dyro/continuation/store.py, under the lock of the
-- Objectives. `record` is the stored Objective; `others` are the actions of the Objectives before
-- and after this one, or the error of a journal that cannot be read.
use dyro_engineering_flow.Prelude.{
  not, ℕ, Bool, not, Option, none, some, List, ◌++◌, ◌==◌, if◌then◌else◌,
}
use dyro_engineering_flow.Budget.Model.{no_caps, BudgetRequest, BudgetDecisionInput, decision_input}
use dyro_engineering_flow.Budget.Decide.{BudgetDecision, decide_budget}
use dyro_engineering_flow.Journal.Model.{ActionIntent, ActionRecord, OwnerLeaseGrant}
use dyro_engineering_flow.Journal.Store.{
  err, ok, intent_fenced, operation_unsupported, bad_argument, reservation_differs, budget_refused,
  Result, M, pure, reads, ◌>>=◌, ◌>>◌, guard,
}
use dyro_engineering_flow.Journal.Actions.{read_record, list_records}
use dyro_engineering_flow.Journal.Lease.{verify_owner_lease}
use dyro_engineering_flow.Journal.Operations.{same_reservation, reserve_action, start_action}
use dyro_engineering_flow.Objective.Authority.{
  StoredObjective, require_actionable_objective, assert_action_is_authorized,
  assert_no_unresolved_actions,
}
use dyro_engineering_flow.Objective.Usage.{budget_usage, reserved_budgets, budget_request_for}

abbrev pub Others : Type 0
Others = List ActionRecord × List ActionRecord

-- The input that the decision is made on.
abbrev pub budget_input :
    (records : List ActionRecord) (stored : StoredObjective) (provider_cap : Option ℕ) (now : ℕ)
    (request : BudgetRequest) (is_automatic : Bool)
    → BudgetDecisionInput
budget_input records stored provider_cap now request is_automatic = record {
  objective_id = stored.objective.id;
  requested = stored.objective.budget;
  workspace = record no_caps { max_provider_usage = provider_cap };
  activation = none;
  usage = budget_usage records (some stored.objective.id);
  workspace_usage = budget_usage records none;
  reservations = reserved_budgets records;
  now = now;
  request = request;
  last_observed_at = none;
  automatic = is_automatic;
}

-- The two refusals after the decision.
abbrev pub accept_decision : ActionIntent → BudgetDecision → Result BudgetDecision
accept_decision intent decision =
    if not (same_reservation intent.budget_reservation decision.reservation)
    then err reservation_differs
    else if not decision.allowed
    then err budget_refused
    else ok decision

-- The request and the decision.
unfoldable pub decide :
    StoredObjective
    → ActionIntent
    → List ActionRecord
    → Option ℕ
    → Bool
    → ℕ
    → Bool
    → Result BudgetDecision
unfolding decide_budget decision_input budget_request_for
decide stored intent records provider_cap trusted now is_automatic =
    elim (budget_request_for intent.operation intent.subject_id trusted) [
      | none ↦ err operation_unsupported
      | some request ↦
          elim (decision_input
            (budget_input records stored provider_cap now request is_automatic)) [
              | none ↦ err bad_argument
              | some input ↦ accept_decision intent (decide_budget input)
            ]
    ]

module _ (token_digest : ℕ → ℕ) where
  -- The checks before the budget, with the owner's generation.
  unfoldable pub check_authority :
      StoredObjective → ActionIntent → OwnerLeaseGrant → ℕ → M (Unit {0})
  unfolding assert_no_unresolved_actions
  check_authority stored intent grant now = do
    require_actionable_objective stored
    assert_action_is_authorized stored intent
    assert_no_unresolved_actions
    lease ← verify_owner_lease token_digest grant now
    guard (intent.owner_generation == lease.generation) intent_fenced

  -- `reserve_supervised_objective_action`
  unfoldable pub reserve_supervised_action :
      StoredObjective
      → Result Others
      → ActionIntent
      → OwnerLeaseGrant
      → Option ℕ
      → Bool
      → ℕ
      → Bool
      → M (ActionRecord × BudgetDecision)
  reserve_supervised_action stored others intent grant provider_cap trusted now is_automatic = do
    own ← reads list_records
    (before, after) ← reads (λ _. others)
    check_authority stored intent grant now
    decision ←
        reads (λ _.
          decide stored intent (before ++ (own ++ after)) provider_cap trusted now is_automatic)
    reserved ← reserve_action intent
    pure (reserved, decision)

  -- `start_objective_action`
  unfoldable pub start_objective_action : StoredObjective → ℕ → OwnerLeaseGrant → ℕ → M ActionRecord
  start_objective_action stored action_id grant now = do
    require_actionable_objective stored
    r ← reads (read_record action_id)
    assert_action_is_authorized stored r.intent
    start_action token_digest action_id grant now
