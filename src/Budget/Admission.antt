-- ===== src/Budget/Admission.antt =====
-- The limits that `decide_budget` of src/dyro/continuation/budgets.py compares with, described
-- independently.
use dyro_engineering_flow.Prelude.{
  ◌==◌, sum_by-select, subst, sym, ℕ, ◌≡◌, ◌↔◌, Bool, true, Option, arith, append-eq-nil,
}
use dyro_engineering_flow.Budget.Model.{BudgetReservation, BudgetDecisionInput}
use dyro_engineering_flow.Budget.Decide.{
  count_of, local_prior, reservation_amount, local_total, workspace_total, task_attempts,
  workspace_task_attempts, count_reasons, time_reasons, decide_budget,
}
use dyro_engineering_flow.Budget.Within.{
  spent_here, spent_in_all, attempts_of, Fits, Metered, WithinBudget,
}
use dyro_engineering_flow.Budget.Reasons.{counts_iff, is_empty-eq-nil, times_iff}

-- The totals of `decide_budget` are the ones of the description.
local_total_spent :
    (i : BudgetDecisionInput) (committed : ℕ) (f : BudgetReservation → ℕ)
    → local_total i committed f ≡ spent_here i committed (f (reservation_amount i)) f
local_total_spent i committed f =
    omega (arith, sum_by-select f (λ r. r.objective_id == i.objective_id) i.reservations)

workspace_total_spent :
    (i : BudgetDecisionInput) (committed : ℕ) (f : BudgetReservation → ℕ)
    → workspace_total i committed f ≡ spent_in_all i committed (f (reservation_amount i)) f
workspace_total_spent i committed f = omega arith

workspace_attempts_spent :
    (i : BudgetDecisionInput)
    → workspace_task_attempts i
      ≡ spent_in_all i
          (count_of i.request.task_id i.workspace_usage.attempts_by_task)
          i.request.attempts
          (attempts_of i)
workspace_attempts_spent i =
    omega
      (arith, sum_by-select (λ r. r.attempts) (λ r. r.task_id == i.request.task_id) i.reservations)

task_attempts_spent :
    (i : BudgetDecisionInput)
    → task_attempts i
      ≡ spent_here i
          (count_of i.request.task_id i.usage.attempts_by_task)
          i.request.attempts
          (attempts_of i)
task_attempts_spent i = omega (
  arith,
  sum_by-select (λ r. r.attempts) (λ r. r.task_id == i.request.task_id) (local_prior i),
  sum_by-select (attempts_of i) (λ r. r.objective_id == i.objective_id) i.reservations,
)

-- Two equal pairs of totals have the same properties.
change : (P : ℕ → ℕ → Type 0) {a a' b b' : ℕ} → a ≡ a' → b ≡ b' → P a b ↔ P a' b'
change P {a} {a'} {b} {b'} e f = (
  λ h. subst (λ x. P x b') e (subst (λ y. P a y) f h),
  λ h. subst (λ x. P x b) (sym e) (subst (λ y. P a' y) (sym f) h),
)

Fits-change :
    {total total' all all' : ℕ} (limit : ℕ) (activation workspace : Option ℕ)
    → total ≡ total'
    → all ≡ all'
    → Fits total limit activation all workspace ↔ Fits total' limit activation all' workspace
Fits-change limit activation workspace e f = change (λ x y. Fits x limit activation y workspace) e f

Metered-change :
    (w a : Option ℕ) (mistrust : Bool) {total total' all all' : ℕ}
    → total ≡ total'
    → all ≡ all'
    → Metered w a mistrust total all ↔ Metered w a mistrust total' all'
Metered-change w a mistrust e f = change (λ x y. Metered w a mistrust x y) e f

-- An action is allowed exactly when every total, with the reservations and the request added,
-- stays within the limit of the Objective, the cap of the activation and the cap of the workspace,
-- the clock is before every deadline and has not gone back, the metered usage is trusted where
-- the caller is automatic, and the cycles without progress are below their limits.
pub allowed-iff-WithinBudget :
    (i : BudgetDecisionInput) → ((decide_budget i).allowed ≡ true) ↔ WithinBudget i
unfolding decide_budget
allowed-iff-WithinBudget i = (
  λ h.
      let (counts, times) =
        append-eq-nil (count_reasons i) (time_reasons i) (is_empty-eq-nil _ h) in
      let (a, b, c, d, e) = (counts_iff i).0 counts in
      let (f, g, m, p) = (times_iff i).0 times in
      record {
        actions = (Fits-change _ _ _ (local_total_spent i _ _) (workspace_total_spent i _ _)).0 a;
        attempts = (Fits-change _ _ _ (task_attempts_spent i) (workspace_attempts_spent i)).0 b;
        failures = (Fits-change _ _ _ (local_total_spent i _ _) (workspace_total_spent i _ _)).0 c;
        consecutive =
            (Fits-change _ _ _ (local_total_spent i _ _) (workspace_total_spent i _ _)).0 d;
        parallel = (Fits-change _ _ _ (local_total_spent i _ _) (workspace_total_spent i _ _)).0 e;
        deadline = f;
        clock = g;
        metered =
            (Metered-change _ _ _ (local_total_spent i _ _) (workspace_total_spent i _ _)).0 m;
        progress = p;
      },
  λ w. rw (
    (counts_iff i).1 (
      (Fits-change _ _ _ (local_total_spent i _ _) (workspace_total_spent i _ _)).1 w.actions,
      (Fits-change _ _ _ (task_attempts_spent i) (workspace_attempts_spent i)).1 w.attempts,
      (Fits-change _ _ _ (local_total_spent i _ _) (workspace_total_spent i _ _)).1 w.failures,
      (Fits-change _ _ _ (local_total_spent i _ _) (workspace_total_spent i _ _)).1 w.consecutive,
      (Fits-change _ _ _ (local_total_spent i _ _) (workspace_total_spent i _ _)).1 w.parallel,
    ),
    (times_iff i).1 (
      w.deadline,
      w.clock,
      (Metered-change _ _ _ (local_total_spent i _ _) (workspace_total_spent i _ _)).1 w.metered,
      w.progress,
    ),
  ),
)
