-- ===== src/Budget/Model.antt =====
-- The records of src/dyro/continuation/budgets.py and the budget of an Objective
-- (src/dyro/continuation/models.py), with the checks of their `__post_init__`. An identifier is a
-- number, 0 for the empty text; an instant is a number of seconds.
use dyro_engineering_flow.Prelude.{
  ℕ, Bool, true, not, ◌&&◌, ◌||◌, Option, none, some, List, [], ◌∷◌, ltb, ◌==◌, all, member,
  if◌then◌else◌,
}
use dyro_engineering_flow.Prelude.Sort.{sort_by}

pub data BudgetReason : Type 0 where
  action_limit attempt_limit failure_limit consecutive_failure_limit parallel_limit : BudgetReason
  deadline_exceeded clock_rollback provider_usage_limit provider_usage_untrusted : BudgetReason
  no_progress_limit : BudgetReason

pub record BudgetLimit : Type 0 where
  pub max_actions : ℕ
  pub max_attempts_per_task : ℕ
  pub max_failures : ℕ
  pub max_no_progress_cycles : ℕ
  pub max_parallel : ℕ
  pub deadline : Option ℕ

-- `none` means no extra cap.
pub record BudgetCaps : Type 0 where
  pub max_actions : Option ℕ
  pub max_attempts_per_task : Option ℕ
  pub max_failures : Option ℕ
  pub max_consecutive_failures : Option ℕ
  pub max_no_progress_cycles : Option ℕ
  pub max_parallel : Option ℕ
  pub max_provider_usage : Option ℕ
  pub deadline : Option ℕ

-- `BudgetCaps()`
abbrev pub no_caps : BudgetCaps
no_caps = record {
  max_actions = none;
  max_attempts_per_task = none;
  max_failures = none;
  max_consecutive_failures = none;
  max_no_progress_cycles = none;
  max_parallel = none;
  max_provider_usage = none;
  deadline = none;
}

pub record EffectiveBudget : Type 0 where
  pub max_actions : ℕ
  pub max_attempts_per_task : ℕ
  pub max_failures : ℕ
  pub max_consecutive_failures : ℕ
  pub max_no_progress_cycles : ℕ
  pub max_parallel : ℕ
  pub max_provider_usage : Option ℕ
  pub deadline : Option ℕ

-- A worst-case reservation held by any active Objective.
pub record BudgetReservation : Type 0 where
  pub objective_id : ℕ
  pub task_id : ℕ
  pub actions : ℕ
  pub attempts : ℕ
  pub failures : ℕ
  pub parallel : ℕ
  pub provider_usage : ℕ

-- Committed facts, before the pending reservations are added.
pub record BudgetUsage : Type 0 where
  pub actions : ℕ
  pub failures : ℕ
  pub consecutive_failures : ℕ
  pub active_parallel : ℕ
  pub provider_usage : ℕ
  pub provider_usage_trusted : Bool
  pub no_progress_cycles : ℕ
  pub attempts_by_task : List (ℕ × ℕ)

pub record BudgetRequest : Type 0 where
  pub task_id : ℕ
  pub actions : ℕ
  pub attempts : ℕ
  pub failures : ℕ
  pub parallel : ℕ
  pub provider_usage : ℕ
  pub provider_usage_trusted : Bool

pub record BudgetDecisionInput : Type 0 where
  pub objective_id : ℕ
  pub requested : BudgetLimit
  pub workspace : BudgetCaps
  pub activation : Option BudgetCaps
  pub usage : BudgetUsage
  pub workspace_usage : BudgetUsage
  pub reservations : List BudgetReservation
  pub now : ℕ
  pub request : BudgetRequest
  pub last_observed_at : Option ℕ
  pub automatic : Bool

-- `_optional_limit`: a cap that is given is positive.
optional_limit : Option ℕ → Bool
optional_limit none = true
optional_limit (some n) = ltb 0 n

-- `BudgetCaps.__post_init__`
unfoldable pub caps_accepted : BudgetCaps → Bool
unfolding optional_limit
caps_accepted c =
    optional_limit c.max_actions
    && optional_limit c.max_attempts_per_task
    && optional_limit c.max_failures
    && optional_limit c.max_consecutive_failures
    && optional_limit c.max_no_progress_cycles
    && optional_limit c.max_parallel
    && optional_limit c.max_provider_usage

-- `BudgetReservation.__post_init__`; a number of this model is never negative.
unfoldable pub reservation_accepted : BudgetReservation → Bool
reservation_accepted r = not (r.objective_id == 0 || r.task_id == 0)

-- `BudgetRequest.__post_init__`
unfoldable pub request_accepted : BudgetRequest → Bool
request_accepted q = not (q.task_id == 0) && ltb 0 q.actions && ltb 0 q.parallel

distinct_tasks : List ℕ → List (ℕ × ℕ) → Bool
distinct_tasks seen [] = true
distinct_tasks seen ((task, n) ∷ rest) = not (member task seen) && distinct_tasks (task ∷ seen) rest

-- `BudgetUsage.__post_init__`
unfoldable pub usage_accepted : BudgetUsage → Bool
unfolding distinct_tasks
usage_accepted u =
    all (λ p. not (p.0 == 0)) u.attempts_by_task && distinct_tasks [] u.attempts_by_task

abbrev pub reservation_le : BudgetReservation → BudgetReservation → Bool
reservation_le a b =
    ltb a.objective_id b.objective_id
    || (a.objective_id == b.objective_id && not (ltb b.task_id a.task_id))

-- `BudgetDecisionInput.__post_init__`: the reservations are sorted.
unfoldable pub decision_input : BudgetDecisionInput → Option BudgetDecisionInput
unfolding sort_by
decision_input i =
    if i.objective_id == 0
    then none
    else some (record i { reservations = sort_by reservation_le i.reservations })
