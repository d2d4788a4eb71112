-- ===== src/Objective/Histories.antt =====
-- The budget of an Objective over histories of the calls of src/dyro/continuation/store.py: what is
-- reserved, started or received never passes what was allowed.
use dyro_engineering_flow.Prelude.{
  ℕ, ◌+◌, ◌≤◌, Bool, Option, List, ◌++◌, arith, ◌==◌, sum_by, sum_by-append, if◌then◌else◌, find,
}
use dyro_engineering_flow.Prelude.Dict.{lookup}
use dyro_engineering_flow.Budget.Model.{BudgetReservation}
use dyro_engineering_flow.Budget.Decide.{BudgetDecision}
use dyro_engineering_flow.Journal.Model.{ActionIntent, ActionRecord, OwnerLeaseGrant}
use dyro_engineering_flow.Journal.Store.{
  intent_file, pure, raise, intent_rebound, Result, Directory, create_intent,
}
use dyro_engineering_flow.Journal.Actions.{list_records}
use dyro_engineering_flow.Journal.Operations.{same_intent_binding, reserve_action}
use dyro_engineering_flow.Journal.Keeps.{
  created_at, Keeps, keeps_rules, bind-Keeps, if-Keeps, pure-Keeps, raise-Keeps, reads-Keeps,
  bind_cases, bind_from, reads_at, cases_at,
}
use dyro_engineering_flow.Objective.Authority.{StoredObjective, assert_no_unresolved_actions}
use dyro_engineering_flow.Objective.Reserve.{
  Others, check_authority, decide, reserve_supervised_action, start_objective_action,
}
use dyro_engineering_flow.Objective.Charged.{IsCount, charge, charged-intent, list_records-charged}
use dyro_engineering_flow.Objective.Unspent.{
  Leaves, recover_owner_takeover-Leaves, verify_owner_lease-Leaves, start_action-Leaves,
}
use dyro_engineering_flow.Objective.Admission.{Admitted, decide-Admitted}

module _ {counts : Bool → Bool → Bool} (c : IsCount counts) (f : BudgetReservation → ℕ)
    (o limit : ℕ) where
  create_intent-Leaves :
      (i : ActionIntent) (d : Directory)
      → Leaves c f o (f i.budget_reservation) limit d
      → Leaves c f o 0 limit (create_intent i.action_id i d).1
  unfolding create_intent
  create_intent-Leaves i d h =
      created_at (Leaves c f o 0 limit) (intent_file i.action_id) (lookup i.action_id d.intents) _ d
        (omega (arith, h))
        (λ absent. omega (arith, charged-intent counts f o c d i.action_id i absent, h))

  bound-Leaves :
      (i : ActionIntent) (r : ActionRecord)
      → Keeps
          (Leaves c f o 0 limit)
          (if same_intent_binding r.intent i then pure r else raise intent_rebound)
  bound-Leaves i r =
      if-Keeps (same_intent_binding r.intent i) _ _ (λ _. pure-Keeps _) (λ _. raise-Keeps _)

  -- A reservation takes at most what it asks for.
  reserve_action-Leaves :
      (i : ActionIntent) (d : Directory)
      → Leaves c f o (f i.budget_reservation) limit d
      → Leaves c f o 0 limit (reserve_action i d).1
  unfolding reserve_action
  reserve_action-Leaves i d h =
      bind_from (Leaves c f o 0 limit) _ _ d
        (recover_owner_takeover-Leaves c f o (f i.budget_reservation) limit) h
        (λ e x. omega (arith, x))
        λ _ e x. reads_at (Leaves c f o 0 limit) e list_records _ (omega (arith, x)) λ rs _.
          cases_at (Leaves c f o 0 limit) e
            (find (λ r. r.intent.idempotency_key == i.idempotency_key) rs) _ _
            (λ _.
              bind_cases (Leaves c f o 0 limit) (create_intent i.action_id i) _ e
                (create_intent-Leaves i e x)
                (λ created _.
                  (if-Keeps created _ _ (λ _. pure-Keeps _)
                      (λ _. bind-Keeps _ _ (reads-Keeps _) (bound-Leaves i))).at
                    _ (create_intent-Leaves i e x)))
            (λ r _. (bound-Leaves i r).at e (omega (arith, x)))

  module _ (token_digest : ℕ → ℕ) (stored : StoredObjective) where
    check_authority-Leaves :
        (more : ℕ) (i : ActionIntent) (g : OwnerLeaseGrant) (now : ℕ)
        → Keeps (Leaves c f o more limit) (check_authority token_digest stored i g now)
    unfolding check_authority assert_no_unresolved_actions
    check_authority-Leaves more i g now =
        search (keeps_rules, verify_owner_lease-Leaves c f o more limit token_digest) depth 20

    pub start_objective_action-Leaves :
        (more id : ℕ) (g : OwnerLeaseGrant) (now : ℕ)
        → Keeps (Leaves c f o more limit) (start_objective_action token_digest stored id g now)
    unfolding start_objective_action
    start_objective_action-Leaves more id g now =
        search (keeps_rules, start_action-Leaves c f o more limit token_digest) depth 20

    own-le :
        (before own after : List ActionRecord)
        → sum_by (charge counts f o) own ≤ sum_by (charge counts f o) (before ++ (own ++ after))
    own-le before own after = omega (
      arith,
      sum_by-append (charge counts f o) before (own ++ after),
      sum_by-append (charge counts f o) own after,
    )

    -- A supervised reservation stays within the limit, if every decision that is made does.
    pub reserve_supervised-Leaves :
        (others : Result Others) (i : ActionIntent) (g : OwnerLeaseGrant) (provider_cap : Option ℕ)
        (trusted : Bool) (now : ℕ) (is_automatic : Bool)
        → ((records : List ActionRecord)
            → Admitted stored i records
            → sum_by (charge counts f o) records + f i.budget_reservation ≤ limit)
        → Keeps (Leaves c f o 0 limit) (
            reserve_supervised_action token_digest stored others i g provider_cap trusted now
              is_automatic)
    unfolding reserve_supervised_action
    reserve_supervised-Leaves others i g provider_cap trusted now is_automatic admits = record {
      at = λ d h. reads_at P d list_records _ h λ own e.
          reads_at P d (λ _. others) _ h
            λ (before, after) _.
              bind_cases P (check_authority token_digest stored i g now) _ d
                ((check_authority-Leaves 0 i g now).at d h)
                λ _ _.
                  let d' = (check_authority token_digest stored i g now d).1 in
                  let h' : P d' = (check_authority-Leaves 0 i g now).at d h in
                  reads_at P d'
                    (λ _.
                      decide stored i (before ++ (own ++ after)) provider_cap trusted now
                        is_automatic)
                    _ h'
                    λ decision allowed.
                      let room = admits (before ++ (own ++ after)) (
                        decide-Admitted stored i (before ++ (own ++ after)) provider_cap trusted now
                          is_automatic allowed) in
                      let start : Leaves c f o (f i.budget_reservation) limit d = omega (
                        arith,
                        room,
                        own-le before own after,
                        list_records-charged counts f o d e,
                      ) in
                      let done =
                        reserve_action-Leaves i d'
                          ((check_authority-Leaves (f i.budget_reservation) i g now).at d start) in
                      bind_cases P (reserve_action i) _ d' done (λ r _.
                        (pure-Keeps {A = ActionRecord × BudgetDecision} {P = P} (r, decision)).at _
                          done);
    }
      where
        P : Directory → Type 0
        P = Leaves c f o 0 limit
