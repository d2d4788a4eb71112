-- ===== src/Objective/Tests.antt =====
-- An Objective with a budget of one action: the first reservation is kept, the next is refused.
use dyro_engineering_flow.Objective.Preview.{
  BudgetPreview, previewed, preview_wave, preview_action, preview_action-decide,
}
use dyro_engineering_flow.Objective.Admission.{Admitted}
use dyro_engineering_flow.Objective.Granted.{Authority}
use dyro_engineering_flow.Objective.Authorized.{reserve_supervised-Authority}
use dyro_engineering_flow.Prelude.{
  ◌↔◌, ◌++◌, ℕ, ◌≤◌, ◌≡◌, refl, true, false, none, some, List, [], ◌∷◌, arith,
}
use dyro_engineering_flow.Budget.Model.{BudgetRequest, decision_input}
use dyro_engineering_flow.Budget.Decide.{BudgetDecision, decide_budget}
use dyro_engineering_flow.Journal.Model.{execute_task, ActionIntent, ActionRecord}
use dyro_engineering_flow.Journal.Store.{
  Result, Directory, ok, err, budget_refused, ◌>>=◌, cases, write_lease, create_intent,
  create_start,
}
use dyro_engineering_flow.Journal.Actions.{list_records, read_record}
use dyro_engineering_flow.Journal.Lease.{
  renew_owner_lease, recover_owner_takeover, verify_owner_lease, assert_owner,
}
use dyro_engineering_flow.Journal.Operations.{reserve_action, start_action}
use dyro_engineering_flow.Journal.Runs.{renew, run}
use dyro_engineering_flow.Journal.Tests.{digest, empty, grant, first_lease}
use dyro_engineering_flow.Planner.Model.{
  PlannedAction, task_ready, supervised, execute_operation, active_state,
}
use dyro_engineering_flow.Objective.Authority.{StoredObjective, assert_no_unresolved_actions}
use dyro_engineering_flow.Objective.Usage.{budget_usage, reserved_budgets, budget_request_for}
use dyro_engineering_flow.Objective.Reserve.{
  Others, budget_input, decide, check_authority, reserve_supervised_action, start_objective_action,
}
use dyro_engineering_flow.Objective.Spent.{
  Step, reserve_supervised, start_objective, journal, take_step, take_steps, actions_of,
  parallel_of, take_steps-within,
}

abbrev stored : StoredObjective
stored = record {
  objective = record {
    id = 1;
    requested_mode = supervised;
    operations = execute_operation ∷ [];
    budget = record {
      max_actions = 1;
      max_attempts_per_task = 2;
      max_failures = 3;
      max_no_progress_cycles = 4;
      max_parallel = 2;
      deadline = none;
    };
  };
  revision = 1;
  operator_state = active_state;
  scope = 7 ∷ 8 ∷ [];
  scope_sha256 = 3;
  event_seq = 1;
  event_sha256 = 2;
}

abbrev intent_of : (action task key : ℕ) → ActionIntent
intent_of action task key = record {
  action_id = action;
  objective_id = 1;
  objective_revision = 1;
  objective_event_seq = 1;
  objective_event_sha256 = 2;
  scope_sha256 = 3;
  snapshot_sha256 = 4;
  plan_sha256 = 5;
  operation = execute_task;
  subject_id = task;
  owner_generation = 1;
  expected_operation_generation = 0;
  authority_sha256 = 6;
  budget_reservation = record {
    objective_id = 1;
    task_id = task;
    actions = 1;
    attempts = 1;
    failures = 1;
    parallel = 1;
    provider_usage = 0;
  };
  created_at = 12;
  idempotency_key = key;
}

abbrev owned : Directory
owned = record empty { lease = some first_lease }

abbrev reserved_first : Directory
reserved_first = record owned { intents = (11, intent_of 11 7 99) ∷ [] }

abbrev reserve_step : ActionIntent → Step
reserve_step i = reserve_supervised stored (ok ([], [])) i grant none true 12 false

first_kept : take_step digest (reserve_step (intent_of 11 7 99)) owned ≡ reserved_first
unfolding take_step reserve_supervised_action check_authority assert_no_unresolved_actions decide
    budget_usage reserved_budgets budget_request_for decision_input decide_budget list_records
    verify_owner_lease recover_owner_takeover assert_owner reserve_action create_intent ◌>>=◌ cases
first_kept = refl

second_refused :
    (reserve_supervised_action digest stored
      (ok ([], []))
      (intent_of 12 8 98)
      grant
      none
      true
      12
      false
      reserved_first).0
    ≡ err budget_refused
unfolding reserve_supervised_action check_authority assert_no_unresolved_actions decide budget_usage
    reserved_budgets budget_request_for decision_input decide_budget list_records verify_owner_lease
    recover_owner_takeover assert_owner reserve_action create_intent ◌>>=◌ cases
second_refused = refl

abbrev steps : List Step
steps =
    reserve_step (intent_of 11 7 99)
    ∷ reserve_step (intent_of 12 8 98)
    ∷ start_objective stored 11 grant 20
    ∷ journal (renew grant 21 60)
    ∷ []

abbrev started_first : ActionRecord
started_first = record {
  intent = intent_of 11 7 99;
  start = some (record {
    action_id = 11;
    idempotency_key = 99;
    owner_generation = 1;
    owner_token_sha256 = 6;
    started_at = 20;
  });
  receipt = none;
}

listed : list_records (take_steps digest steps owned) ≡ ok (started_first ∷ [])
unfolding take_steps take_step reserve_supervised_action start_objective_action check_authority
    assert_no_unresolved_actions decide budget_usage reserved_budgets budget_request_for
    decision_input decide_budget list_records verify_owner_lease recover_owner_takeover assert_owner
    reserve_action start_action create_intent create_start read_record run renew_owner_lease
    write_lease ◌>>=◌ cases
listed = refl

none_yet : list_records owned ≡ ok []
unfolding list_records
none_yet = refl

take_steps-within_example :
    (actions_of 1 (started_first ∷ []) ≤ 1) × (parallel_of 1 (started_first ∷ []) ≤ 2)
take_steps-within_example =
    take_steps-within digest 1 1 2 steps owned
      ((refl, omega arith, omega arith), ((refl, omega arith, omega arith), (tt, (refl, tt))))
      none_yet (omega arith) (omega arith) listed

abbrev request : BudgetRequest
request = record {
  task_id = 7;
  actions = 1;
  attempts = 1;
  failures = 1;
  parallel = 1;
  provider_usage = 0;
  provider_usage_trusted = true;
}

abbrev answer : ActionRecord × BudgetDecision
answer = (
  record { intent = intent_of 11 7 99; start = none; receipt = none },
  decide_budget (record (budget_input [] stored none 12 request false) { reservations = [] }),
)

answered :
    (reserve_supervised_action digest stored
      (ok ([], []))
      (intent_of 11 7 99)
      grant
      none
      true
      12
      false
      owned).0
    ≡ ok answer
unfolding reserve_supervised_action check_authority assert_no_unresolved_actions decide budget_usage
    reserved_budgets budget_request_for decision_input decide_budget list_records verify_owner_lease
    recover_owner_takeover assert_owner reserve_action create_intent ◌>>=◌ cases
answered = refl

abbrev no_others : Result Others
no_others = ok ([], [])

reserve_supervised-Authority_example :
    Authority stored (intent_of 11 7 99) owned
    × (before : List ActionRecord) × (own : List ActionRecord) × (after : List ActionRecord) × ◌≡◌
        {A = Result Others} no_others
        (ok (before, after))
    × (list_records owned ≡ ok own)
    × Admitted stored (intent_of 11 7 99) (before ++ (own ++ after))
reserve_supervised-Authority_example =
    reserve_supervised-Authority digest stored (intent_of 11 7 99) grant 12 no_others none true
      false owned answered

abbrev planned : PlannedAction
planned = record { kind = execute_task; subject_id = 7; reason = task_ready; facts = [] }

abbrev preview : BudgetPreview
preview =
    previewed execute_task 7
      (decide_budget (record (budget_input [] stored none 12 request false) { reservations = [] }))

previewed_alone : preview_wave stored [] none (λ _. true) 12 (planned ∷ []) ≡ some (preview ∷ [])
unfolding preview_wave preview_action decide_budget decision_input budget_request_for budget_usage
    reserved_budgets
previewed_alone = refl

shown : preview_action stored [] none (λ _. true) 12 planned ≡ some preview
unfolding preview_action decide_budget decision_input budget_request_for budget_usage
    reserved_budgets
shown = refl

preview_action-decide_example :
    (preview.allowed ≡ true)
    ↔ ((x : BudgetDecision) × (decide stored (intent_of 11 7 99) [] none true 12 false ≡ ok x))
preview_action-decide_example =
    preview_action-decide stored [] none (λ _. true) 12 planned (intent_of 11 7 99) refl refl refl
      shown
