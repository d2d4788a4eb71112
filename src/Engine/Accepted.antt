-- ===== src/Engine/Accepted.antt =====
-- The tick of `build_scheduler_tick` against the checks of its own records, in
-- src/dyro/continuation/engine.py.
use dyro_engineering_flow.Prelude.{
  Bool, not, ◌&&◌, ℕ, ◌-◌, ◌≤◌, ◌≡◌, refl, ap, subst, ◌∙◌, true, false, List, [], ◌∷◌, ◌++◌, arith,
  leb, ◌==◌, ==_iff, and_true, all, select, sum_by, sum_by-append, sum_by-select, if◌then◌else◌,
}
use dyro_engineering_flow.Prelude.Sort.{sort_by, sum_by-sort_by}
use dyro_engineering_flow.Journal.Model.{is_mutating}
use dyro_engineering_flow.Planner.Model.{
  SchedulerSnapshot, PlannedAction, ContinuationPlan, action_le,
}
use dyro_engineering_flow.Engine.Tick.{
  identified, ok, WaveDeferral, empty_selection, active_parallel, same_key, repeats, SchedulerTick,
  build_scheduler_tick,
}
use dyro_engineering_flow.Engine.Ticks.{build_scheduler_tick-partition, tick-from}
use dyro_engineering_flow.Engine.Checks.{
  all_mutating, none_mutating, deferred_actions, tick_accepted, count, repeats-count, count-repeats,
}
use dyro_engineering_flow.Engine.Sorted.{all-map, select_wave-IsSorted}

-- The key of `k`, counted among the mutations.
abbrev mutations_like : PlannedAction → PlannedAction → ℕ
mutations_like k a = if is_mutating a.kind then (if same_key k a then 1 else 0) else 0

mutations-count :
    (k : PlannedAction) (xs : List PlannedAction)
    → all_mutating xs ≡ true
    → sum_by (mutations_like k) xs ≡ count k xs
mutations-count k [] h = refl
mutations-count k (a ∷ as') h =
    let (m, others) : (is_mutating a.kind ≡ true) × (all_mutating as' ≡ true) = and_true h in
    rw m (omega (arith, mutations-count k as' others))

mutations-deferred :
    (k : PlannedAction) (ds : List WaveDeferral)
    → all (λ d. is_mutating d.action.kind) ds ≡ true
    → sum_by (λ d. mutations_like k d.action) ds ≡ count k (deferred_actions ds)
mutations-deferred k [] h = refl
mutations-deferred k (d ∷ ds) h =
    let (m, others) : (is_mutating d.action.kind ≡ true)
        × (all (λ d. is_mutating d.action.kind) ds ≡ true) =
      and_true h in
    rw m (omega (arith, mutations-deferred k ds others))

module _ (is_digest : ℕ → Bool) (snapshot : SchedulerSnapshot) (plan : ContinuationPlan) (limit : ℕ)
    {tick : SchedulerTick} where
  -- What was checked before the loop.
  checked-before :
      build_scheduler_tick is_digest snapshot plan limit ≡ ok tick
      → (leb 1 limit ≡ true)
        × (repeats (select (λ a. is_mutating a.kind) (sort_by action_le plan.selected_actions))
            ≡ false)
        × (identified is_digest plan ≡ true)
  unfolding build_scheduler_tick
  checked-before h = ground arith

  sorted-tick :
      build_scheduler_tick is_digest snapshot plan limit ≡ ok tick
      → (all_mutating tick.wave ≡ true)
        × (all (λ d. is_mutating d.action.kind) tick.deferred ≡ true)
        × (none_mutating tick.non_mutating_actions ≡ true)
  sorted-tick h =
      let (s, run, same) = tick-from is_digest snapshot plan limit tick h in
      let i =
        select_wave-IsSorted snapshot limit (active_parallel snapshot)
          (limit - active_parallel snapshot) _ empty_selection s run
          (record { waves = refl; waits = refl; rests = refl }) in
      subst
        (λ t.
          (all_mutating t.wave ≡ true)
          × (all (λ d. is_mutating d.action.kind) t.deferred ≡ true)
          × (none_mutating t.non_mutating_actions ≡ true))
        same (i.waves, i.waits, i.rests)

  -- No key stands twice in the wave and the deferred actions.
  keys_once :
      build_scheduler_tick is_digest snapshot plan limit ≡ ok tick
      → (k : PlannedAction) → count k (tick.wave ++ deferred_actions tick.deferred) ≤ 1
  keys_once h k =
      let (a, b, c) = sorted-tick h in
      let (_, once, _) = checked-before h in
      let f = mutations_like k in
      omega (
        arith,
        sum_by-append (λ x. if same_key k x then 1 else 0) tick.wave
            (deferred_actions tick.deferred),
        mutations-count k tick.wave a,
        mutations-deferred k tick.deferred b,
        build_scheduler_tick-partition is_digest snapshot plan limit f h,
        sum_by-sort_by action_le f plan.selected_actions,
        sum_by-select (λ x. if same_key k x then 1 else 0) (λ x. is_mutating x.kind)
            (sort_by action_le plan.selected_actions),
        repeats-count (select (λ a. is_mutating a.kind) (sort_by action_le plan.selected_actions))
            once k,
      )

  tick-fields :
      build_scheduler_tick is_digest snapshot plan limit ≡ ok tick
      → (tick.objective_id ≡ plan.objective_id)
        × (tick.snapshot_sha256 ≡ plan.snapshot_sha256)
        × (tick.plan_sha256 ≡ plan.plan_sha256)
        × (tick.max_parallel ≡ limit)
        × (tick.available_parallel ≡ tick.max_parallel - tick.active_parallel)
  tick-fields h =
      let (s, run, same) = tick-from is_digest snapshot plan limit tick h in
      subst
        (λ t.
          (t.objective_id ≡ plan.objective_id)
          × (t.snapshot_sha256 ≡ plan.snapshot_sha256)
          × (t.plan_sha256 ≡ plan.plan_sha256)
          × (t.max_parallel ≡ limit)
          × (t.available_parallel ≡ t.max_parallel - t.active_parallel))
        same (refl, refl, refl, refl, refl)

  -- An answered tick passes all checks of its own records.
  pub build_scheduler_tick_accepted :
      build_scheduler_tick is_digest snapshot plan limit ≡ ok tick
      → tick_accepted is_digest tick ≡ true
  unfolding tick_accepted
  build_scheduler_tick_accepted h =
      let (a, b, c) = sorted-tick h in
      let (positive, _, named) = checked-before h in
      let (d, sha, of_plan, e, f) = tick-fields h in
      let once = count-repeats (tick.wave ++ deferred_actions tick.deferred) (keys_once h) in
      let waits : all_mutating (deferred_actions tick.deferred) ≡ true =
        all-map (λ x. is_mutating x.kind) (λ d'. d'.action) tick.deferred ∙ b in
      let known : (not (tick.objective_id == 0)
            && is_digest tick.snapshot_sha256
            && is_digest tick.plan_sha256)
          ≡ true =
        rw (d, sha, of_plan) named in
      let slots : leb 1 tick.max_parallel ≡ true = ap (leb 1) e ∙ positive in
      let free = (==_iff tick.available_parallel (tick.max_parallel - tick.active_parallel)).1 f in
      rw (known, slots, free, a, waits, c, once) refl
