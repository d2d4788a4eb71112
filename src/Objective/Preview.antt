-- ===== src/Objective/Preview.antt =====
-- `preview_objective_wave_budgets` of src/dyro/continuation/store.py: what the budget would say to
-- each action of a wave, without reserving any. The caller gives no caps of the workspace, so that
-- the configured one counts.
use dyro_engineering_flow.Prelude.{
  Option-cases, ℕ, ◌≡◌, ◌↔◌, refl, Bool, true, false, inl, inr, Option, none, some, List, [], ◌∷◌,
  arith, ◌==◌, ==_refl, if◌then◌else◌, Bool-cases,
}
use dyro_engineering_flow.Prelude.Sort.{sort_by}
use dyro_engineering_flow.Budget.Model.{
  BudgetReason, BudgetRequest, BudgetReservation, BudgetDecisionInput, reservation_le,
  decision_input,
}
use dyro_engineering_flow.Budget.Decide.{BudgetDecision, decide_budget}
use dyro_engineering_flow.Journal.Model.{
  ActionKind, execute_task, review_task, ActionIntent, ActionRecord,
}
use dyro_engineering_flow.Journal.Store.{ok}
use dyro_engineering_flow.Journal.Operations.{same_reservation}
use dyro_engineering_flow.Planner.Model.{RequestedMode, automatic, PlannedAction}
use dyro_engineering_flow.Objective.Authority.{StoredObjective}
use dyro_engineering_flow.Objective.Usage.{budget_request_for, reserved_budgets}
use dyro_engineering_flow.Objective.Reserve.{budget_input, accept_decision, decide}

pub record BudgetPreview : Type 0 where
  pub subject_id : ℕ
  pub operation : ActionKind
  pub allowed : Bool
  pub reasons : List BudgetReason

abbrev pub is_automatic : RequestedMode → Bool
is_automatic automatic = true
is_automatic _ = false

-- `_PREVIEWABLE_ACTIONS`
abbrev pub is_previewable : ActionKind → Bool
is_previewable execute_task = true
is_previewable review_task = true
is_previewable _ = false

abbrev pub previewed : ActionKind → ℕ → BudgetDecision → BudgetPreview
previewed kind subject decision = record {
  subject_id = subject;
  operation = kind;
  allowed = decision.allowed;
  reasons = decision.reasons;
}

-- The decision on one action, as it stands in the preview; `none` is the error of an input that is refused.
unfoldable pub preview_action :
    StoredObjective
    → List ActionRecord
    → Option ℕ
    → (trusted : ℕ → Bool) → ℕ
    → PlannedAction
    → Option BudgetPreview
unfolding budget_request_for decision_input decide_budget
preview_action stored records provider_cap trusted now a =
    elim (budget_request_for a.kind a.subject_id (trusted a.subject_id)) [
      | none ↦ none
      | some request ↦
          elim (decision_input (
            budget_input records stored provider_cap now request
              (is_automatic stored.objective.requested_mode))) [
                | none ↦ none
                | some input ↦ some (previewed a.kind a.subject_id (decide_budget input))
              ]
    ]

abbrev pub joined : Option BudgetPreview → Option (List BudgetPreview) → Option (List BudgetPreview)
joined none _ = none
joined (some p) none = none
joined (some p) (some ps) = some (p ∷ ps)

-- `preview_objective_wave_budgets`
unfoldable pub preview_wave :
    StoredObjective
    → List ActionRecord
    → Option ℕ
    → (trusted : ℕ → Bool) → ℕ
    → List PlannedAction
    → Option (List BudgetPreview)
unfolding preview_action
preview_wave stored records provider_cap trusted now [] = some []
preview_wave stored records provider_cap trusted now (a ∷ as') =
    let rest = preview_wave stored records provider_cap trusted now as' in
    if is_previewable a.kind
    then joined (preview_action stored records provider_cap trusted now a) rest
    else rest

-- What a supervised action always reserves: itself, one failure, one place, and an attempt where it
-- executes.
abbrev pub attempts_of : ActionKind → ℕ
attempts_of execute_task = 1
attempts_of _ = 0

abbrev pub fixed_reservation : ℕ → PlannedAction → BudgetReservation
fixed_reservation objective a = record {
  objective_id = objective;
  task_id = a.subject_id;
  actions = 1;
  attempts = attempts_of a.kind;
  failures = 1;
  parallel = 1;
  provider_usage = 0;
}

same_reservation_refl : (r : BudgetReservation) → same_reservation r r ≡ true
same_reservation_refl r =
    rw
      (
        ==_refl r.objective_id,
        ==_refl r.task_id,
        ==_refl r.actions,
        ==_refl r.attempts,
        ==_refl r.failures,
        ==_refl r.parallel,
        ==_refl r.provider_usage,
      )
      refl

request_reserves :
    (kind : ActionKind) (subject objective : ℕ) (trusted : Bool) (q : BudgetRequest)
    → budget_request_for kind subject trusted ≡ some q
    → (q.task_id ≡ subject)
      × (q.actions ≡ 1)
      × (q.attempts ≡ attempts_of kind)
      × (q.failures ≡ 1)
      × (q.parallel ≡ 1)
      × (q.provider_usage ≡ 0)
unfolding budget_request_for
request_reserves kind subject objective trusted q h =
    (ground arith, ground arith, ground arith, ground arith, ground arith, ground arith)

module _ (stored : StoredObjective) (records : List ActionRecord) (provider_cap : Option ℕ)
    (trusted : ℕ → Bool) (now : ℕ) where
  decided_iff :
      (i : ActionIntent) (d : BudgetDecision)
      → same_reservation i.budget_reservation d.reservation ≡ true
      → (d.allowed ≡ true) ↔ ((x : BudgetDecision) × (accept_decision i d ≡ ok x))
  decided_iff i d same = (λ h. (d, rw (same, h) refl), λ (x, e). ground arith)

  -- For an intent of a previewed action with the fixed reservation, the preview allows the action
  -- exactly where the same files let the decision before a reservation pass.
  pub preview_action-decide :
      (a : PlannedAction) (i : ActionIntent) {p : BudgetPreview}
      → i.operation ≡ a.kind
      → i.subject_id ≡ a.subject_id
      → i.budget_reservation ≡ fixed_reservation stored.objective.id a
      → preview_action stored records provider_cap trusted now a ≡ some p
      → (p.allowed ≡ true) ↔ (
          (x : BudgetDecision) × (decide stored i records provider_cap
              (trusted a.subject_id)
              now
              (is_automatic stored.objective.requested_mode)
            ≡ ok x))
  unfolding preview_action decide decision_input decide_budget
  preview_action-decide a i {p} kind subject reserves e =
      elim (Option-cases (budget_request_for a.kind a.subject_id (trusted a.subject_id))) [
        | inl absent ↦ let never : none ≡ some p = rw (absent, preview_action) at e in ground arith
        | inr (q, asked) ↦ elim (Bool-cases (stored.objective.id == 0)) [
          | inl zero ↦
              let never : none ≡ some p = rw (asked, zero, preview_action) at e in ground arith
          | inr positive ↦
              let input = decision_on q in
              let (t, n, m, f, l, u) =
                request_reserves a.kind a.subject_id stored.objective.id (trusted a.subject_id) q
                  asked in
              let shown : some (previewed a.kind a.subject_id (decide_budget input)) ≡ some p =
                rw (asked, positive, preview_action) at e in
              let same : p.allowed ≡ (decide_budget input).allowed = ground arith in
              let step : decide stored i records provider_cap (trusted a.subject_id) now
                    (is_automatic stored.objective.requested_mode)
                  ≡ accept_decision i (decide_budget input) =
                rw (kind, subject, asked, positive, decide) refl in
              let fixed : same_reservation i.budget_reservation (decide_budget input).reservation
                  ≡ true =
                rw (reserves, t, n, m, f, l, u)
                  (same_reservation_refl (fixed_reservation stored.objective.id a)) in
              rw (same, step) (decided_iff i (decide_budget input) fixed)
        ]
      ]
    where
      decision_on : BudgetRequest → BudgetDecisionInput
      decision_on q =
          record (budget_input records stored provider_cap now q
            (is_automatic stored.objective.requested_mode)) {
              reservations = sort_by reservation_le (reserved_budgets records);
            }
