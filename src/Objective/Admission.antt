-- ===== src/Objective/Admission.antt =====
-- The budget of an Objective over histories of the calls of src/dyro/continuation/store.py.
use dyro_engineering_flow.Prelude.{
  Bool-cases, ℕ, ◌+◌, ◌≤◌, ◌≡◌, refl, Bool, true, not, ◌||◌, inl, inr, Option, some, List, [], ◌∷◌,
  arith, ◌==◌, sum_by, select, is_some, if◌then◌else◌, Option-cases,
}
use dyro_engineering_flow.Prelude.Sort.{sort_by, sum_by-sort_by}
use dyro_engineering_flow.Budget.Model.{
  BudgetReservation, BudgetRequest, BudgetDecisionInput, reservation_le, decision_input,
}
use dyro_engineering_flow.Budget.Admission.{allowed-iff-WithinBudget}
use dyro_engineering_flow.Budget.Decide.{BudgetDecision, decide_budget}
use dyro_engineering_flow.Journal.Model.{ActionIntent, ActionRecord}
use dyro_engineering_flow.Journal.Store.{operation_unsupported, bad_argument, ok, err}
use dyro_engineering_flow.Journal.Operations.{same_reservation}
use dyro_engineering_flow.Objective.Authority.{StoredObjective}
use dyro_engineering_flow.Objective.Usage.{
  budget_request_for, budget_usage, reserved_budgets, of_objective,
}
use dyro_engineering_flow.Objective.Reserve.{accept_decision, budget_input, decide}
use dyro_engineering_flow.Objective.Charged.{IsCount, charge}

-- Actions that are started or may still be.
abbrev pub kept : Bool → Bool → Bool
kept s r = s || not r

-- Actions that have no receipt.
abbrev pub unfinished : Bool → Bool → Bool
unfinished s r = not r

pub kept-IsCount : IsCount kept
kept-IsCount = record { received = λ s h. ground arith; started = λ h. refl }

pub unfinished-IsCount : IsCount unfinished
unfinished-IsCount = record { received = λ s h. refl; started = λ h. refl }

abbrev here : ℕ → (BudgetReservation → ℕ) → BudgetReservation → ℕ
here o f r = if r.objective_id == o then f r else 0

charge-kept :
    (f : BudgetReservation → ℕ) (o : ℕ) (rs : List ActionRecord)
    → sum_by (charge kept f o) rs
      ≤ sum_by
          (λ r. f r.intent.budget_reservation)
          (select (λ r. is_some r.start) (select (of_objective (some o)) rs))
        + sum_by (here o f) (reserved_budgets rs)
unfolding reserved_budgets
charge-kept f o [] = omega arith
charge-kept f o (r ∷ rs) = ground (arith, charge-kept f o rs)

charge-unfinished :
    (f : BudgetReservation → ℕ) (o : ℕ) (rs : List ActionRecord)
    → sum_by (charge unfinished f o) rs
      ≤ sum_by
          (λ r. f r.intent.budget_reservation)
          (select
            (λ r. not (is_some r.receipt))
            (select (λ r. is_some r.start) (select (of_objective (some o)) rs)))
        + sum_by (here o f) (reserved_budgets rs)
unfolding reserved_budgets
charge-unfinished f o [] = omega arith
charge-unfinished f o (r ∷ rs) = ground (arith, charge-unfinished f o rs)

-- What an allowed decision says of the actions and of those that run at once.
pub record Admitted (stored : StoredObjective) (i : ActionIntent) (records : List ActionRecord)
    : Type 0 where
  pub actions :
      sum_by (charge kept (λ r. r.actions) stored.objective.id) records
        + i.budget_reservation.actions
      ≤ stored.objective.budget.max_actions
  pub parallel :
      sum_by (charge unfinished (λ r. r.parallel) stored.objective.id) records
        + i.budget_reservation.parallel
      ≤ stored.objective.budget.max_parallel

accepted-Admitted :
    (stored : StoredObjective) (i : ActionIntent) (records : List ActionRecord)
    (provider_cap : Option ℕ) (now : ℕ) (request : BudgetRequest) (is_automatic : Bool)
    {x : BudgetDecision}
    → accept_decision i (
        decide_budget (record (budget_input records stored provider_cap now request is_automatic) {
          reservations = sort_by reservation_le (reserved_budgets records);
        }))
      ≡ ok x
    → Admitted stored i records
unfolding decide_budget budget_usage
accepted-Admitted stored i records provider_cap now request is_automatic h =
    let input = record (budget_input records stored provider_cap now request is_automatic) {
      reservations = sort_by reservation_le (reserved_budgets records);
    } in
    let w = (allowed-iff-WithinBudget input).0 (ground arith) in
    let o = stored.objective.id in
    let (same_actions, same_parallel) = reserved_as i input (ground arith) in
    record {
      actions = omega (
        arith,
        w.actions.0,
        same_actions,
        charge-kept (λ r. r.actions) o records,
        sum_by-sort_by reservation_le (here o (λ r. r.actions)) (reserved_budgets records),
      );
      parallel = omega (
        arith,
        w.parallel.0,
        same_parallel,
        charge-unfinished (λ r. r.parallel) o records,
        sum_by-sort_by reservation_le (here o (λ r. r.parallel)) (reserved_budgets records),
      );
    }
  where
    reserved_as :
        (i : ActionIntent) (input : BudgetDecisionInput)
        → same_reservation i.budget_reservation (decide_budget input).reservation ≡ true
        → (i.budget_reservation.actions ≡ input.request.actions)
          × (i.budget_reservation.parallel ≡ input.request.parallel)
    reserved_as i input h = (ground arith, ground arith)

pub decide-Admitted :
    (stored : StoredObjective) (i : ActionIntent) (records : List ActionRecord)
    (provider_cap : Option ℕ) (trusted : Bool) (now : ℕ) (is_automatic : Bool) {x : BudgetDecision}
    → decide stored i records provider_cap trusted now is_automatic ≡ ok x
    → Admitted stored i records
unfolding decide decision_input
decide-Admitted stored i records provider_cap trusted now is_automatic {x} h =
    elim (Option-cases (budget_request_for i.operation i.subject_id trusted)) [
      | inl e ↦ let never : err operation_unsupported ≡ ok x = rw (e, decide) at h in ground arith
      | inr (request, e) ↦ elim (Bool-cases (stored.objective.id == 0)) [
        | inl zero ↦ let never : err bad_argument ≡ ok x = rw (e, zero, decide) at h in ground arith
        | inr positive ↦
            accepted-Admitted stored i records provider_cap now request is_automatic
              (rw (e, positive, decide) at h)
      ]
    ]
