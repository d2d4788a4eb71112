-- ===== src/Budget/Within.antt =====
-- The limits that `decide_budget` of src/dyro/continuation/budgets.py compares with, described
-- independently.
use dyro_engineering_flow.Prelude.{
  ◌+◌, ◌==◌, if◌then◌else◌, sum_by, ℕ, ◌≤◌, ◌<◌, ◌≡◌, Bool, false, Option, none, some,
}
use dyro_engineering_flow.Budget.Model.{BudgetReservation, BudgetDecisionInput}
use dyro_engineering_flow.Budget.Limits.{or_no_caps, Within}
use dyro_engineering_flow.Budget.Decide.{count_of, workspace_total, untrusted}

-- A total of the Objective stays within its own limit and the activation's cap, and a total of
-- the workspace within the workspace's cap.
abbrev pub Fits : ℕ → ℕ → Option ℕ → ℕ → Option ℕ → Type 0
Fits total limit activation workspace_total workspace =
    (total ≤ limit) × Within total activation × Within workspace_total workspace

-- What is committed, asked for, and reserved by the actions of the same Objective.
abbrev pub spent_here : BudgetDecisionInput → (committed asked : ℕ) → (BudgetReservation → ℕ) → ℕ
spent_here i committed asked f =
    committed
    + asked
    + sum_by (λ r. if r.objective_id == i.objective_id then f r else 0) i.reservations

-- The same over the whole workspace.
abbrev pub spent_in_all : BudgetDecisionInput → (committed asked : ℕ) → (BudgetReservation → ℕ) → ℕ
spent_in_all i committed asked f = committed + asked + sum_by f i.reservations

-- The attempts of the task that is asked for.
abbrev pub attempts_of : BudgetDecisionInput → BudgetReservation → ℕ
attempts_of i r = if r.task_id == i.request.task_id then r.attempts else 0

-- `n` lies below a bound that may be absent.
abbrev pub Below : ℕ → Option ℕ → Type 0
Below n none = Unit
Below n (some bound) = n < bound

abbrev pub NotBefore : ℕ → Option ℕ → Type 0
NotBefore n none = Unit
NotBefore n (some last) = last ≤ n

-- Metering: without a cap nothing is asked; with one, an automatic caller must have trusted
-- usage, and no cap is passed.
abbrev pub Metered : Option ℕ → Option ℕ → Bool → ℕ → ℕ → Type 0
Metered none none mistrust local workspace = Unit
Metered workspace_cap activation_cap mistrust local workspace =
    (mistrust ≡ false) × Within local activation_cap × Within workspace workspace_cap

pub record WithinBudget (i : BudgetDecisionInput) : Type 0 where
  pub actions :
      Fits
        (spent_here i i.usage.actions i.request.actions (λ r. r.actions))
        i.requested.max_actions
        (or_no_caps i.activation).max_actions
        (spent_in_all i i.workspace_usage.actions i.request.actions (λ r. r.actions))
        i.workspace.max_actions
  pub attempts :
      Fits
        (spent_here i
          (count_of i.request.task_id i.usage.attempts_by_task)
          i.request.attempts
          (attempts_of i))
        i.requested.max_attempts_per_task
        (or_no_caps i.activation).max_attempts_per_task
        (spent_in_all i
          (count_of i.request.task_id i.workspace_usage.attempts_by_task)
          i.request.attempts
          (attempts_of i))
        i.workspace.max_attempts_per_task
  pub failures :
      Fits
        (spent_here i i.usage.failures i.request.failures (λ r. r.failures))
        i.requested.max_failures
        (or_no_caps i.activation).max_failures
        (spent_in_all i i.workspace_usage.failures i.request.failures (λ r. r.failures))
        i.workspace.max_failures
  pub consecutive :
      Fits
        (spent_here i i.usage.consecutive_failures i.request.failures (λ r. r.failures))
        i.requested.max_failures
        (or_no_caps i.activation).max_consecutive_failures
        (spent_in_all i i.workspace_usage.consecutive_failures i.request.failures (λ r. r.failures))
        i.workspace.max_consecutive_failures
  pub parallel :
      Fits
        (spent_here i i.usage.active_parallel i.request.parallel (λ r. r.parallel))
        i.requested.max_parallel
        (or_no_caps i.activation).max_parallel
        (spent_in_all i i.workspace_usage.active_parallel i.request.parallel (λ r. r.parallel))
        i.workspace.max_parallel
  pub deadline :
      Below i.now i.requested.deadline
      × Below i.now i.workspace.deadline
      × Below i.now (or_no_caps i.activation).deadline
  pub clock : NotBefore i.now i.last_observed_at
  pub metered :
      Metered i.workspace.max_provider_usage
        (or_no_caps i.activation).max_provider_usage
        (untrusted i)
        (spent_here i i.usage.provider_usage i.request.provider_usage (λ r. r.provider_usage))
        (spent_in_all i i.workspace_usage.provider_usage i.request.provider_usage
          (λ r. r.provider_usage))
  pub progress :
      (i.usage.no_progress_cycles < i.requested.max_no_progress_cycles)
      × Below i.usage.no_progress_cycles (or_no_caps i.activation).max_no_progress_cycles
      × Below i.workspace_usage.no_progress_cycles i.workspace.max_no_progress_cycles
