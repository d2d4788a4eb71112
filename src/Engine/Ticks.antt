-- ===== src/Engine/Ticks.antt =====
-- The tick that `build_scheduler_tick` of src/dyro/continuation/engine.py answers.
use dyro_engineering_flow.Prelude.{
  ℕ, ◌+◌, ◌-◌, ◌≤◌, ◌≡◌, sym, ap, subst, Bool, true, false, inl, inr, Option, none, some, List, [],
  ◌∷◌, ◌++◌, arith, Bool-cases, All, Pairwise, length, sum_by, sum_by-append, leb, if◌then◌else◌,
}
use dyro_engineering_flow.Prelude.Sort.{sort_by, sum_by-sort_by}
use dyro_engineering_flow.Journal.Model.{is_mutating}
use dyro_engineering_flow.Planner.Model.{
  SchedulerSnapshot, PlannedAction, ContinuationPlan, action_le,
}
use dyro_engineering_flow.Engine.Tick.{
  Resource, TickResult, ok, err, WaveDeferral, Selection, empty_selection, collision, place,
  defer_one, join_one, conflict_deferral, capacity_deferral, action_resources, active_parallel,
  select_one, select_wave, SchedulerTick, tick_of, build_scheduler_tick,
}
use dyro_engineering_flow.Engine.Wave.{Disjoint, Explained, IsSelection}
use dyro_engineering_flow.Engine.Loop.{ok_injective, select_wave_split, select_wave-IsSelection}

-- How often the actions of a selection count.
abbrev placed : (PlannedAction → ℕ) → Selection → ℕ
placed f s = sum_by f s.wave + sum_by (λ d. f d.action) s.deferred + sum_by f s.passive

module _ (f : PlannedAction → ℕ) where
  placed-defer :
      (d : WaveDeferral) (s : Selection) → placed f (defer_one d s) ≡ f d.action + placed f s
  placed-defer d s = omega (arith, sum_by-append (λ x. f x.action) s.deferred (d ∷ []))

  placed-join :
      (action : PlannedAction) (claims : List Resource) (s : Selection)
      → placed f (join_one action claims s) ≡ f action + placed f s
  placed-join action claims s = omega (arith, sum_by-append f s.wave (action ∷ []))

  placed-passive :
      (action : PlannedAction) (s : Selection)
      → placed f (record s { passive = s.passive ++ action ∷ [] }) ≡ f action + placed f s
  placed-passive action s = omega (arith, sum_by-append f s.passive (action ∷ []))

  placed-place :
      (limit active available : ℕ) (action : PlannedAction) (claims : List Resource) (s : Selection)
      (o : Option (Resource × ℕ))
      → placed f (place limit active available action claims s o) ≡ f action + placed f s
  placed-place limit active available action claims s (some (c, subject)) =
      placed-defer (conflict_deferral action c subject) s
  placed-place limit active available action claims s none =
      elim (Bool-cases (leb available (length s.wave))) [
        | inl e ↦ rw e (placed-defer (capacity_deferral limit active available action) s)
        | inr e ↦ rw e (placed-join action claims s)
      ]

  module _ (snapshot : SchedulerSnapshot) (limit active available : ℕ) where
    placed-select_one :
        (action : PlannedAction) (s s' : Selection)
        → select_one snapshot limit active available action s ≡ ok s'
        → placed f s' ≡ f action + placed f s
    unfolding select_one
    placed-select_one action s s' h =
        by (is_mutating action.kind) (action_resources snapshot action) h
      where
        by :
            (b : Bool) (r : TickResult (List Resource))
            → (if b
                then elim r [
                  | err e ↦ err e
                  | ok claims ↦
                      ok (
                        place limit active available action claims s (collision s.resources claims))
                ]
                else ok (record s { passive = s.passive ++ action ∷ [] }))
              ≡ ok s'
            → placed f s' ≡ f action + placed f s
        by true (ok claims) k =
            subst (λ x. placed f x ≡ f action + placed f s) (ok_injective k)
              (placed-place limit active available action claims s (collision s.resources claims))
        by true (err _) k = ground arith
        by false r k =
            subst (λ x. placed f x ≡ f action + placed f s) (ok_injective k)
              (placed-passive action s)

    placed-select_wave :
        (actions : List PlannedAction) (s s' : Selection)
        → select_wave snapshot limit active available actions s ≡ ok s'
        → placed f s' ≡ sum_by f actions + placed f s
    unfolding select_wave
    placed-select_wave [] s s' h = omega (arith, ap (placed f) (sym (ok_injective h)))
    placed-select_wave (a ∷ as') s s' h =
        let (s1, one, rest) = select_wave_split snapshot limit active available a as' s s' h in
        omega (arith, placed-select_one a s s1 one, placed-select_wave as' s1 s' rest)

-- Where the loop started.
empty-IsSelection :
    (snapshot : SchedulerSnapshot) (available : ℕ) → IsSelection snapshot available empty_selection
empty-IsSelection snapshot available = record {
  bounded = omega arith;
  disjoint = tt;
  held = λ r subject h. ground arith;
  claimed = tt;
  explained = tt;
}

-- A tick comes from a selection of the sorted actions.
pub tick-from :
    (is_digest : ℕ → Bool) (snapshot : SchedulerSnapshot) (plan : ContinuationPlan) (limit : ℕ)
    (tick : SchedulerTick)
    → build_scheduler_tick is_digest snapshot plan limit ≡ ok tick
    → (s : Selection) × (select_wave snapshot limit
          (active_parallel snapshot)
          (limit - active_parallel snapshot)
          (sort_by action_le plan.selected_actions)
          empty_selection
        ≡ ok s)
      × (tick_of snapshot plan limit (active_parallel snapshot) s ≡ tick)
unfolding build_scheduler_tick
tick-from is_digest snapshot plan limit tick h = ground arith

module _ (is_digest : ℕ → Bool) (snapshot : SchedulerSnapshot) (plan : ContinuationPlan) (limit : ℕ)
    {tick : SchedulerTick} where
  -- An answered tick is safe: its wave holds at most `max_parallel` actions less those that run
  -- already (none, if more run); no two actions of the wave claim one task, agent, conflict group
  -- or merge line; and every deferred mutation either shares the claim that its facts name with
  -- the action of the wave that they name, or the wave is full.
  pub build_scheduler_tick-IsSafe :
      build_scheduler_tick is_digest snapshot plan limit ≡ ok tick
      → (length tick.wave ≤ limit - active_parallel snapshot)
        × Pairwise (Disjoint snapshot) tick.wave
        × All (Explained snapshot (limit - active_parallel snapshot) tick.wave) tick.deferred
  build_scheduler_tick-IsSafe h =
      let (s, run, same) = tick-from is_digest snapshot plan limit tick h in
      let i =
        select_wave-IsSelection snapshot limit (active_parallel snapshot)
          (limit - active_parallel snapshot) _ empty_selection s run
          (empty-IsSelection snapshot (limit - active_parallel snapshot)) in
      subst
        (λ t.
          (length t.wave ≤ limit - active_parallel snapshot)
          × Pairwise (Disjoint snapshot) t.wave
          × All (Explained snapshot (limit - active_parallel snapshot) t.wave) t.deferred)
        same (i.bounded, i.disjoint, i.explained)

  -- An answered tick loses and repeats no action: for every measure of actions, the wave, the
  -- deferred actions and the passive ones add up to the selected actions of the plan.
  pub build_scheduler_tick-partition :
      (f : PlannedAction → ℕ)
      → build_scheduler_tick is_digest snapshot plan limit ≡ ok tick
      → sum_by f tick.wave
          + sum_by (λ d. f d.action) tick.deferred
          + sum_by f tick.non_mutating_actions
        ≡ sum_by f plan.selected_actions
  build_scheduler_tick-partition f h =
      let (s, run, same) = tick-from is_digest snapshot plan limit tick h in
      let all_placed =
        placed-select_wave f snapshot limit (active_parallel snapshot)
          (limit - active_parallel snapshot) _ empty_selection s run in
      subst
        (λ t.
          sum_by f t.wave + sum_by (λ d. f d.action) t.deferred + sum_by f t.non_mutating_actions
          ≡ sum_by f plan.selected_actions)
        same (omega (arith, all_placed, sum_by-sort_by action_le f plan.selected_actions))
