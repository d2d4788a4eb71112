-- ===== src/Engine/Loop.antt =====
-- The wave through the loop of `build_scheduler_tick` of src/dyro/continuation/engine.py.
use dyro_engineering_flow.Prelude.{
  ℕ, ◌≡◌, refl, ap, subst, Bool, true, false, List, [], ◌∷◌, ◌++◌, arith, if◌then◌else◌,
}
use dyro_engineering_flow.Journal.Model.{is_mutating}
use dyro_engineering_flow.Planner.Model.{SchedulerSnapshot, PlannedAction}
use dyro_engineering_flow.Engine.Tick.{
  Resource, TickResult, ok, err, Selection, collision, place, action_resources, select_one,
  select_wave,
}
use dyro_engineering_flow.Engine.Wave.{claims_in, IsSelection, place-IsSelection}

pub ok_injective : {A : Type 0} {a b : A} → ok a ≡ ok b → a ≡ b
ok_injective {A} {a} h = ap value h
  where
    value : TickResult A → A
    value (ok x) = x
    value (err _) = a

module _ (snapshot : SchedulerSnapshot) (limit active available : ℕ) where
  pub select_wave_split :
      (action : PlannedAction) (actions : List PlannedAction) (s s' : Selection)
      → select_wave snapshot limit active available (action ∷ actions) s ≡ ok s'
      → (s1 : Selection) × (select_one snapshot limit active available action s ≡ ok s1)
        × (select_wave snapshot limit active available actions s1 ≡ ok s')
  unfolding select_wave
  select_wave_split action actions s s' h =
      by (select_one snapshot limit active available action s) refl h
    where
      by :
          (r : TickResult Selection)
          → select_one snapshot limit active available action s ≡ r
          → elim r [
            | err e ↦ err e
            | ok s1 ↦ select_wave snapshot limit active available actions s1
          ]
            ≡ ok s'
          → (s1 : Selection) × (select_one snapshot limit active available action s ≡ ok s1)
            × (select_wave snapshot limit active available actions s1 ≡ ok s')
      by (ok s1) e k = (s1, e, k)
      by (err _) e k = ground arith

  select_one-IsSelection :
      (action : PlannedAction) (s s' : Selection)
      → select_one snapshot limit active available action s ≡ ok s'
      → IsSelection snapshot available s
      → IsSelection snapshot available s'
  unfolding select_one claims_in
  select_one-IsSelection action s s' h i =
      by (is_mutating action.kind) (action_resources snapshot action) refl h
    where
      by :
          (b : Bool) (r : TickResult (List Resource))
          → action_resources snapshot action ≡ r
          → (if b
              then elim r [
                | err e ↦ err e
                | ok claims ↦
                    ok (place limit active available action claims s (collision s.resources claims))
              ]
              else ok (record s { passive = s.passive ++ action ∷ [] }))
            ≡ ok s'
          → IsSelection snapshot available s'
      by true (ok claims) e k = subst (IsSelection snapshot available) (ok_injective k) (
          place-IsSelection snapshot limit active available action claims s
            (collision s.resources claims) (rw (claims_in, e) refl) refl i)
      by true (err _) e k = ground arith
      by false r e k = subst (IsSelection snapshot available) (ok_injective k) (record {
        bounded = i.bounded;
        disjoint = i.disjoint;
        held = i.held;
        claimed = i.claimed;
        explained = i.explained;
      })

  pub select_wave-IsSelection :
      (actions : List PlannedAction) (s s' : Selection)
      → select_wave snapshot limit active available actions s ≡ ok s'
      → IsSelection snapshot available s
      → IsSelection snapshot available s'
  unfolding select_wave
  select_wave-IsSelection [] s s' h i = subst (IsSelection snapshot available) (ok_injective h) i
  select_wave-IsSelection (a ∷ as') s s' h i =
      let (s1, one, rest) = select_wave_split a as' s s' h in
      select_wave-IsSelection as' s1 s' rest (select_one-IsSelection a s s1 one i)
