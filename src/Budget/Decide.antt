-- ===== src/Budget/Decide.antt =====
-- `decide_budget` of src/dyro/continuation/budgets.py: may one more action be taken, given what
-- is committed, what is reserved, and the limits of the Objective and of the workspace?
use dyro_engineering_flow.Prelude.{
  ℕ, ◌+◌, Bool, true, false, not, ◌&&◌, ◌||◌, Option, none, some, List, [], ◌∷◌, ◌++◌, ltb, leb,
  ◌==◌, if◌then◌else◌, sum_by, select,
}
use dyro_engineering_flow.Budget.Model.{
  BudgetReason, action_limit, attempt_limit, failure_limit, consecutive_failure_limit,
  parallel_limit, deadline_exceeded, clock_rollback, provider_usage_limit, provider_usage_untrusted,
  no_progress_limit, BudgetCaps, no_caps, EffectiveBudget, BudgetReservation, BudgetUsage,
  BudgetDecisionInput,
}
use dyro_engineering_flow.Budget.Limits.{effective_budget}

-- The rendered facts, by name.
pub record BudgetFacts : Type 0 where
  pub actions : ℕ
  pub attempts_for_task : ℕ
  pub failures : ℕ
  pub parallel : ℕ
  pub provider_usage : ℕ

pub record BudgetDecision : Type 0 where
  pub allowed : Bool
  pub reasons : List BudgetReason
  pub effective : EffectiveBudget
  pub reservation : BudgetReservation
  pub facts : BudgetFacts

-- `_reservation_amount`
abbrev pub reservation_amount : BudgetDecisionInput → BudgetReservation
reservation_amount i = record {
  objective_id = i.objective_id;
  task_id = i.request.task_id;
  actions = i.request.actions;
  attempts = i.request.attempts;
  failures = i.request.failures;
  parallel = i.request.parallel;
  provider_usage = i.request.provider_usage;
}

-- `dict(pairs).get(task, 0)`: the tasks of a usage are distinct.
abbrev pub count_of : ℕ → List (ℕ × ℕ) → ℕ
count_of task [] = 0
count_of task ((t, n) ∷ rest) = if t == task then n else count_of task rest

-- `_attempts_for_task`
abbrev pub attempts_for_task : BudgetUsage → List BudgetReservation → ℕ → ℕ
attempts_for_task usage reservations task =
    count_of task usage.attempts_by_task
    + sum_by (λ r. r.attempts) (select (λ r. r.task_id == task) reservations)

-- `cap is not None and total > cap`
abbrev pub over : Option ℕ → ℕ → Bool
over none total = false
over (some cap) total = ltb cap total

-- `deadline is not None and now >= deadline`; also the no-progress test
abbrev pub reached : Option ℕ → ℕ → Bool
reached none n = false
reached (some bound) n = leb bound n

-- `last_observed_at is not None and now < last_observed_at`
abbrev pub before : Option ℕ → ℕ → Bool
before none n = false
before (some last) n = ltb n last

abbrev pub activation_usage : Option BudgetCaps → Option ℕ
activation_usage none = none
activation_usage (some caps) = caps.max_provider_usage

abbrev pub local_prior : BudgetDecisionInput → List BudgetReservation
local_prior i = select (λ r. r.objective_id == i.objective_id) i.reservations

abbrev pub local_limits : BudgetDecisionInput → EffectiveBudget
local_limits i = effective_budget i.requested no_caps i.activation

-- What is committed, what is reserved and what is asked for, summed.
abbrev pub local_total : BudgetDecisionInput → ℕ → (BudgetReservation → ℕ) → ℕ
local_total i committed f = committed + sum_by f (local_prior i) + f (reservation_amount i)

abbrev pub workspace_total : BudgetDecisionInput → ℕ → (BudgetReservation → ℕ) → ℕ
workspace_total i committed f = committed + sum_by f i.reservations + f (reservation_amount i)

abbrev pub task_attempts : BudgetDecisionInput → ℕ
task_attempts i = attempts_for_task i.usage (local_prior i) i.request.task_id + i.request.attempts

abbrev pub workspace_task_attempts : BudgetDecisionInput → ℕ
workspace_task_attempts i =
    attempts_for_task i.workspace_usage i.reservations i.request.task_id + i.request.attempts

abbrev pub reason_if : Bool → BudgetReason → List BudgetReason
reason_if true reason = reason ∷ []
reason_if false reason = []

-- The metering of a provider: nothing without a limit, mistrust before excess.
abbrev pub usage_reasons : Option ℕ → Bool → Bool → List BudgetReason
usage_reasons none untrusted excess = []
usage_reasons (some limit) untrusted excess =
    if untrusted then provider_usage_untrusted ∷ [] else reason_if excess provider_usage_limit

abbrev pub untrusted : BudgetDecisionInput → Bool
untrusted i =
    i.automatic
    && (not i.usage.provider_usage_trusted
        || not i.workspace_usage.provider_usage_trusted
        || not i.request.provider_usage_trusted)

abbrev pub over_usage : BudgetDecisionInput → Bool
over_usage i =
    over (activation_usage i.activation)
      (local_total i i.usage.provider_usage (λ r. r.provider_usage))
    || over i.workspace.max_provider_usage
        (workspace_total i i.workspace_usage.provider_usage (λ r. r.provider_usage))

unfoldable pub count_reasons : BudgetDecisionInput → List BudgetReason
count_reasons i =
    let local = local_limits i in
    reason_if
      (ltb local.max_actions (local_total i i.usage.actions (λ r. r.actions))
        || over i.workspace.max_actions
            (workspace_total i i.workspace_usage.actions (λ r. r.actions)))
      action_limit
    ++ (reason_if
          (ltb local.max_attempts_per_task (task_attempts i)
            || over i.workspace.max_attempts_per_task (workspace_task_attempts i))
          attempt_limit
        ++ (reason_if
              (ltb local.max_failures (local_total i i.usage.failures (λ r. r.failures))
                || over i.workspace.max_failures
                    (workspace_total i i.workspace_usage.failures (λ r. r.failures)))
              failure_limit
            ++ (reason_if
                  (ltb local.max_consecutive_failures
                      (local_total i i.usage.consecutive_failures (λ r. r.failures))
                    || over i.workspace.max_consecutive_failures (
                        workspace_total i i.workspace_usage.consecutive_failures (λ r. r.failures)))
                  consecutive_failure_limit
                ++ reason_if
                    (ltb local.max_parallel
                        (local_total i i.usage.active_parallel (λ r. r.parallel))
                      || over i.workspace.max_parallel
                          (workspace_total i i.workspace_usage.active_parallel (λ r. r.parallel)))
                    parallel_limit)))

unfoldable pub time_reasons : BudgetDecisionInput → List BudgetReason
time_reasons i =
    let effective = effective_budget i.requested i.workspace i.activation in
    reason_if (reached effective.deadline i.now) deadline_exceeded
    ++ (reason_if (before i.last_observed_at i.now) clock_rollback
        ++ (usage_reasons effective.max_provider_usage (untrusted i) (over_usage i)
            ++ reason_if
                (leb (local_limits i).max_no_progress_cycles i.usage.no_progress_cycles
                  || reached i.workspace.max_no_progress_cycles
                      i.workspace_usage.no_progress_cycles)
                no_progress_limit))

abbrev pub is_empty : List BudgetReason → Bool
is_empty [] = true
is_empty (_ ∷ _) = false

unfoldable pub decide_budget : BudgetDecisionInput → BudgetDecision
unfolding count_reasons time_reasons effective_budget
decide_budget i =
    let reasons = count_reasons i ++ time_reasons i in
    record {
      allowed = is_empty reasons;
      reasons = reasons;
      effective = effective_budget i.requested i.workspace i.activation;
      reservation = reservation_amount i;
      facts = record {
        actions = workspace_total i i.workspace_usage.actions (λ r. r.actions);
        attempts_for_task = task_attempts i;
        failures = workspace_total i i.workspace_usage.failures (λ r. r.failures);
        parallel = workspace_total i i.workspace_usage.active_parallel (λ r. r.parallel);
        provider_usage = workspace_total i i.workspace_usage.provider_usage (λ r. r.provider_usage);
      };
    }
