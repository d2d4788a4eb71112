-- ===== src/Planner/Delivered.antt =====
-- When the targets of an Objective are delivered, for src/dyro/continuation/planner.py.
use dyro_engineering_flow.Prelude.{
  All, all, and_true, some_injective, Option, none, some, [], ℕ, ◌≡◌, ◌↔◌, refl, ap, ◌∙◌, true,
  false, List, [], ◌∷◌, arith,
}
use dyro_engineering_flow.Planner.Model.{
  Status, done, same_state, IntegrationState, integrated, is_integrated, active_state,
  OperatorState, find_task, is_active_state, SchedulerTaskSnapshot, SchedulerSnapshot,
}
use dyro_engineering_flow.Planner.Plan.{is_delivered, target_complete}

-- A target that stands in the snapshot, is done and integrated.
abbrev pub IsIntegrated : SchedulerSnapshot → ℕ → Type 0
IsIntegrated s id =
    (item : SchedulerTaskSnapshot) × (find_task id s.tasks ≡ some item)
    × (item.status ≡ done)
    × (item.integration_state ≡ integrated)

-- The Objective is delivered: as accepted, active, with every target done and integrated.
abbrev pub IsDelivered : SchedulerSnapshot → Type 0
IsDelivered s =
    (s.objective_drifted ≡ false)
    × (s.objective_state ≡ active_state)
    × All (IsIntegrated s) s.objective_targets

done_iff : (a : Status) → (same_state a done ≡ true) ↔ (a ≡ done)
done_iff done = (λ h. refl, λ h. refl)
done_iff _ = (λ h. ground arith, λ h. ground arith)

integrated_iff : (a : IntegrationState) → (is_integrated a ≡ true) ↔ (a ≡ integrated)
integrated_iff integrated = (λ h. refl, λ h. refl)
integrated_iff _ = (λ h. ground arith, λ h. ground arith)

active_iff : (a : OperatorState) → (is_active_state a ≡ true) ↔ (a ≡ active_state)
active_iff active_state = (λ h. refl, λ h. refl)
active_iff _ = (λ h. ground arith, λ h. ground arith)

is_delivered_iff :
    (s : SchedulerSnapshot) (id : ℕ)
    → (is_delivered (find_task id s.tasks) ≡ true) ↔ IsIntegrated s id
is_delivered_iff s id = by (find_task id s.tasks)
  where
    by :
        (x : Option SchedulerTaskSnapshot)
        → (is_delivered x ≡ true) ↔ (
            (item : SchedulerTaskSnapshot) × (x ≡ some item)
            × (item.status ≡ done)
            × (item.integration_state ≡ integrated))
    by none = (λ h. ground arith, λ (item, h, _, _). ground arith)
    by (some item) = (
      λ h.
          let (d, i) = and_true h in
          (item, refl, (done_iff item.status).0 d, (integrated_iff item.integration_state).0 i),
      λ (item', h, d, i).
          let same = some_injective h in
          let status : item.status ≡ done = ap (λ x. x.status) same ∙ d in
          let integration : item.integration_state ≡ integrated =
            ap (λ x. x.integration_state) same ∙ i in
          rw (status, integration) refl,
    )

target_complete_iff :
    (s : SchedulerSnapshot) → (target_complete s ≡ true) ↔ All (IsIntegrated s) s.objective_targets
unfolding target_complete
target_complete_iff s = by s.objective_targets
  where
    by :
        (ids : List ℕ)
        → (all (λ id. is_delivered (find_task id s.tasks)) ids ≡ true) ↔ All (IsIntegrated s) ids
    by [] = (λ h. tt, λ h. refl)
    by (id ∷ ids) = (
      λ h. let (here, later) = and_true h in ((is_delivered_iff s id).0 here, (by ids).0 later),
      λ (here, later). rw ((is_delivered_iff s id).1 here, (by ids).1 later) refl,
    )

pub IsDelivered-iff :
    (s : SchedulerSnapshot)
    → ((s.objective_drifted ≡ false)
        × (is_active_state s.objective_state ≡ true)
        × (target_complete s ≡ true))
      ↔ IsDelivered s
IsDelivered-iff s = (
  λ (a, b, c). (a, (active_iff s.objective_state).0 b, (target_complete_iff s).0 c),
  λ (a, b, c). (a, (active_iff s.objective_state).1 b, (target_complete_iff s).1 c),
)
