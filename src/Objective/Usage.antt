-- ===== src/Objective/Usage.antt =====
-- What the actions of the journals use of the budgets: `_budget_usage`, `_reserved_budgets` and
-- `_budget_request_for` of src/dyro/continuation/store.py.
use dyro_engineering_flow.Prelude.{
  ℕ, ◌+◌, Bool, true, false, not, ◌&&◌, ◌||◌, Option, none, some, List, [], ◌∷◌, ltb, ◌==◌, select,
  map, sum_by, is_some, if◌then◌else◌,
}
use dyro_engineering_flow.Prelude.Sort.{sort_by}
use dyro_engineering_flow.Budget.Model.{BudgetReservation, BudgetUsage, BudgetRequest}
use dyro_engineering_flow.Journal.Model.{
  ActionKind, execute_task, review_task, failed, uncertain, same_status, ActionReceipt,
  ActionRecord,
}

abbrev pub of_objective : Option ℕ → ActionRecord → Bool
of_objective none r = true
of_objective (some id) r = r.intent.objective_id == id

-- `attempts[task] = attempts.get(task, 0) + n`
abbrev pub add_attempts : ℕ → ℕ → List (ℕ × ℕ) → List (ℕ × ℕ)
add_attempts task n [] = (task, n) ∷ []
add_attempts task n ((t, m) ∷ rest) =
    let more = add_attempts task n rest in if t == task then (t, m + n) ∷ rest else (t, m) ∷ more

abbrev pub collect_attempts : List ActionRecord → List (ℕ × ℕ) → List (ℕ × ℕ)
collect_attempts [] attempts = attempts
collect_attempts (r ∷ rs) attempts =
    let b = r.intent.budget_reservation in
    collect_attempts rs (add_attempts b.task_id b.attempts attempts)

abbrev pub recorded_at : Option ActionReceipt → ℕ
recorded_at none = 0
recorded_at (some receipt) = receipt.recorded_at

-- The order of the receipts, by their time and then by the action.
abbrev pub terminal_le : ActionRecord → ActionRecord → Bool
terminal_le a b =
    ltb (recorded_at a.receipt) (recorded_at b.receipt)
    || (recorded_at a.receipt == recorded_at b.receipt
        && not (ltb b.intent.action_id a.intent.action_id))

abbrev pub receipt_fails : Option ActionReceipt → Bool
receipt_fails none = false
receipt_fails (some receipt) =
    same_status receipt.status failed || same_status receipt.status uncertain

-- The loop over the receipts in their order.
abbrev pub consecutive_from : ℕ → List ActionRecord → ℕ
consecutive_from n [] = n
consecutive_from n (r ∷ rs) =
    consecutive_from
      (if receipt_fails r.receipt then n + r.intent.budget_reservation.failures else 0) rs

abbrev pub pair_le : ℕ × ℕ → ℕ × ℕ → Bool
pair_le a b = ltb a.0 b.0 || (a.0 == b.0 && not (ltb b.1 a.1))

abbrev pub no_records : List ActionRecord → Bool
no_records [] = true
no_records _ = false

-- `_budget_usage`
unfoldable pub budget_usage : List ActionRecord → Option ℕ → BudgetUsage
unfolding sort_by
budget_usage records objective =
    let started = select (λ r. is_some r.start) (select (of_objective objective) records) in
    let terminal = sort_by terminal_le (select (λ r. is_some r.receipt) started) in
    record {
      actions = sum_by (λ r. r.intent.budget_reservation.actions) started;
      failures =
          sum_by (λ r. r.intent.budget_reservation.failures)
            (select (λ r. receipt_fails r.receipt) terminal);
      consecutive_failures = consecutive_from 0 terminal;
      active_parallel =
          sum_by (λ r. r.intent.budget_reservation.parallel)
            (select (λ r. not (is_some r.receipt)) started);
      provider_usage = 0;
      provider_usage_trusted = no_records started;
      no_progress_cycles = 0;
      attempts_by_task = sort_by pair_le (collect_attempts started []);
    }

-- `_reserved_budgets`
unfoldable pub reserved_budgets : List ActionRecord → List BudgetReservation
reserved_budgets records =
    map (λ r. r.intent.budget_reservation)
      (select (λ r. not (is_some r.start) && not (is_some r.receipt)) records)

-- `_budget_request_for`; whether the executor's card is trusted is found by `_trusted_usage_for_subject`.
unfoldable pub budget_request_for : ActionKind → ℕ → Bool → Option BudgetRequest
budget_request_for execute_task subject trusted = some (record {
  task_id = subject;
  actions = 1;
  attempts = 1;
  failures = 1;
  parallel = 1;
  provider_usage = 0;
  provider_usage_trusted = trusted;
})
budget_request_for review_task subject trusted = some (record {
  task_id = subject;
  actions = 1;
  attempts = 0;
  failures = 1;
  parallel = 1;
  provider_usage = 0;
  provider_usage_trusted = trusted;
})
budget_request_for _ subject trusted = none
