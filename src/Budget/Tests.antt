-- ===== src/Budget/Tests.antt =====
-- The budget's theorems at one concrete Objective.
use dyro_engineering_flow.Prelude.{
  ℕ, suc, ◌+◌, ◌≤◌, ◌≡◌, ◌↔◌, refl, true, false, none, some, [], ◌∷◌, arith, length,
}
use dyro_engineering_flow.Budget.Model.{
  BudgetLimit, BudgetCaps, no_caps, BudgetUsage, BudgetDecisionInput,
}
use dyro_engineering_flow.Budget.Limits.{effective_budget, MeetsEach, effective_budget-iff-Meets}
use dyro_engineering_flow.Budget.Decide.{decide_budget}
use dyro_engineering_flow.Budget.Within.{WithinBudget}
use dyro_engineering_flow.Budget.Admission.{allowed-iff-WithinBudget}
use dyro_engineering_flow.Budget.Progress.{
  ProgressFacts, NoProgressDecision, progress_fingerprint, Payload, payload, watch,
  watch_same_delivery,
}

abbrev limits : BudgetLimit
limits = record {
  max_actions = 3;
  max_attempts_per_task = 2;
  max_failures = 2;
  max_no_progress_cycles = 4;
  max_parallel = 2;
  deadline = some 100;
}

abbrev workspace_caps : BudgetCaps
workspace_caps = record no_caps { max_actions = some 5; max_parallel = some 1 }

abbrev usage_now : BudgetUsage
usage_now = record {
  actions = 1;
  failures = 0;
  consecutive_failures = 0;
  active_parallel = 0;
  provider_usage = 0;
  provider_usage_trusted = true;
  no_progress_cycles = 0;
  attempts_by_task = (7, 1) ∷ [];
}

abbrev input : BudgetDecisionInput
input = record {
  objective_id = 1;
  requested = limits;
  workspace = workspace_caps;
  activation = none;
  usage = usage_now;
  workspace_usage = usage_now;
  reservations = [];
  now = 10;
  request = record {
    task_id = 7;
    actions = 1;
    attempts = 1;
    failures = 0;
    parallel = 1;
    provider_usage = 0;
    provider_usage_trusted = true;
  };
  last_observed_at = some 5;
  automatic = false;
}

allowed-iff-WithinBudget_example : ((decide_budget input).allowed ≡ true) ↔ WithinBudget input
allowed-iff-WithinBudget_example = allowed-iff-WithinBudget input

input_allowed : (decide_budget input).allowed ≡ true
unfolding decide_budget effective_budget
input_allowed = refl

effective_budget-iff-Meets_example : MeetsEach 1 limits workspace_caps none
effective_budget-iff-Meets_example = effective_budget-iff-Meets 1 limits workspace_caps none

abbrev digest : Payload → ℕ
digest p = suc (length p.task_states)

abbrev facts : ProgressFacts
facts = record {
  task_states = (7, 1) ∷ [];
  integration_heads = [];
  decisions = [];
  effective_evidence = [];
  trigger_observations = [];
}

abbrev last_seen : NoProgressDecision
last_seen = record {
  fingerprint = progress_fingerprint digest facts;
  cycles = 1;
  reset = false;
  exhausted = false;
}

watch_same_delivery_example :
    (end : NoProgressDecision) × (watch digest 3 last_seen
        (facts ∷ record facts { trigger_observations = (2, 2) ∷ [] } ∷ [])
      ≡ some end)
    × (end.cycles ≡ 1 + 2)
    × (end.reset ≡ false)
    × ((end.exhausted ≡ true) ↔ (3 ≤ 1 + 2))
unfolding payload
watch_same_delivery_example =
    watch_same_delivery digest facts 3 last_seen facts
      (record facts { trigger_observations = (2, 2) ∷ [] } ∷ []) (omega arith) refl
      (refl, (refl, tt))
