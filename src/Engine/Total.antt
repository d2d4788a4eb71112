-- ===== src/Engine/Total.antt =====
-- When `build_scheduler_tick` of src/dyro/continuation/engine.py answers.
use dyro_engineering_flow.Prelude.{
  ◌≢◌, ℕ, ◌-◌, ◌≤◌, ◌≡◌, refl, ◌∙◌, Bool, true, false, not, ◌&&◌, List, [], ◌∷◌, ◌++◌, arith, any,
  select, is_some, Option-cases, Bool-cases, inl, inr,
}
use dyro_engineering_flow.Prelude.Sort.{sort_by, any-sort_by}
use dyro_engineering_flow.Journal.Model.{is_mutating}
use dyro_engineering_flow.Planner.Model.{
  SchedulerSnapshot, PlannedAction, ContinuationPlan, find_task, action_le,
}
use dyro_engineering_flow.Engine.Tick.{
  identified, claims_of, Resource, ok, Selection, empty_selection, collision, place,
  action_resources, active_parallel, select_one, select_wave, repeats, SchedulerTick, tick_of,
  build_scheduler_tick,
}

module _ (snapshot : SchedulerSnapshot) where
  -- A mutation of a task that the snapshot does not know.
  abbrev pub unknown : PlannedAction → Bool
  unknown a = is_mutating a.kind && not (is_some (find_task a.subject_id snapshot.tasks))

  module _ (limit active available : ℕ) where
    known_resources :
        (action : PlannedAction)
        → is_some (find_task action.subject_id snapshot.tasks) ≡ true
        → (claims : List Resource) × (action_resources snapshot action ≡ ok claims)
    unfolding action_resources
    known_resources action h = elim (Option-cases (find_task action.subject_id snapshot.tasks)) [
      | inl e ↦ ground arith
      | inr (item, e) ↦ (claims_of action.kind item.task, rw (action_resources, e) refl)
    ]

    select_one_total :
        (action : PlannedAction) (s : Selection)
        → unknown action ≡ false
        → (s' : Selection) × (select_one snapshot limit active available action s ≡ ok s')
    unfolding select_one
    select_one_total action s h = elim (Bool-cases (is_mutating action.kind)) [
      | inl e ↦
          let (claims, known) = known_resources action (ground arith) in
          (
            place limit active available action claims s (collision s.resources claims),
            rw (e, known) refl,
          )
      | inr e ↦ (record s { passive = s.passive ++ action ∷ [] }, rw e refl)
    ]

    select_wave_total :
        (actions : List PlannedAction) (s : Selection)
        → any unknown actions ≡ false
        → (s' : Selection) × (select_wave snapshot limit active available actions s ≡ ok s')
    unfolding select_wave
    select_wave_total [] s h = (s, refl)
    select_wave_total (a ∷ as') s h =
        let (s1, one) = select_one_total a s (ground arith) in
        let (s2, rest) = select_wave_total as' s1 (ground arith) in (s2, rw (select_wave, one) rest)

  -- The tick is answered for every plan of the snapshot's Objective and digest, where the Objective
  -- is named and both digests are well-formed, with a positive limit, no mutation twice and no mutation of an unknown task.
  pub build_scheduler_tick_total :
      (is_digest : ℕ → Bool) (plan : ContinuationPlan) (limit : ℕ)
      → snapshot.objective_id ≢ 0
      → is_digest snapshot.snapshot_sha256 ≡ true
      → is_digest plan.plan_sha256 ≡ true
      → plan.objective_id ≡ snapshot.objective_id
      → plan.snapshot_sha256 ≡ snapshot.snapshot_sha256
      → 1 ≤ limit
      → repeats (select (λ a. is_mutating a.kind) (sort_by action_le plan.selected_actions)) ≡ false
      → any unknown plan.selected_actions ≡ false
      → (tick : SchedulerTick) × (build_scheduler_tick is_digest snapshot plan limit ≡ ok tick)
  unfolding build_scheduler_tick
  build_scheduler_tick_total is_digest plan limit named sha of_plan a b c d e =
      let (s, run) =
        select_wave_total limit (active_parallel snapshot) (limit - active_parallel snapshot)
          (sort_by action_le plan.selected_actions) empty_selection
          (any-sort_by action_le unknown plan.selected_actions ∙ e) in
      let known : identified is_digest plan ≡ true = rw (a, b, of_plan, sha) (ground arith) in
      (tick_of snapshot plan limit (active_parallel snapshot) s, ground arith)
