-- ===== src/Engine/Checks.antt =====
-- The checks of `SchedulerTick.__post_init__` and `WaveDeferral.__post_init__` of
-- src/dyro/continuation/engine.py on the values of a tick, without the digest of the tick itself.
use dyro_engineering_flow.Prelude.{
  ℕ, ◌-◌, ◌≤◌, ◌≡◌, refl, Bool, true, false, not, ◌&&◌, List, [], ◌∷◌, ◌++◌, arith, leb, ◌==◌,
  ==_iff, ==_refl, and_true, any, all, map, sum_by, Bool-cases, inl, inr, if◌then◌else◌,
}
use dyro_engineering_flow.Journal.Model.{is_mutating}
use dyro_engineering_flow.Planner.Model.{PlannedAction, kind_rank}
use dyro_engineering_flow.Engine.Tick.{same_key, repeats, SchedulerTick, WaveDeferral}

-- Every action changes something, or none does.
abbrev pub all_mutating : List PlannedAction → Bool
all_mutating xs = all (λ a. is_mutating a.kind) xs

abbrev pub none_mutating : List PlannedAction → Bool
none_mutating xs = all (λ a. not (is_mutating a.kind)) xs

abbrev pub deferred_actions : List WaveDeferral → List PlannedAction
deferred_actions ds = map (λ d. d.action) ds

unfoldable pub tick_accepted : (ℕ → Bool) → SchedulerTick → Bool
tick_accepted is_digest t =
    (not (t.objective_id == 0) && is_digest t.snapshot_sha256 && is_digest t.plan_sha256)
    && leb 1 t.max_parallel
    && t.available_parallel == t.max_parallel - t.active_parallel
    && all_mutating t.wave
    && all_mutating (deferred_actions t.deferred)
    && none_mutating t.non_mutating_actions
    && not (repeats (t.wave ++ deferred_actions t.deferred))

-- How often the key of `k` stands in a list.
abbrev pub count : PlannedAction → List PlannedAction → ℕ
count k xs = sum_by (λ a. if same_key k a then 1 else 0) xs

same_key-count :
    (k a : PlannedAction) (xs : List PlannedAction) → same_key k a ≡ true → count k xs ≡ count a xs
same_key-count k a xs h =
    let kind = (==_iff (kind_rank k.kind) (kind_rank a.kind)).0 (and_true h).0 in
    let subject = (==_iff k.subject_id a.subject_id).0 (and_true h).1 in rw (kind, subject) refl

any-count :
    (k : PlannedAction) (xs : List PlannedAction) → any (same_key k) xs ≡ false → count k xs ≡ 0
any-count k [] h = refl
any-count k (a ∷ as') h = let rest = any-count k as' in ground arith

count-any :
    (k : PlannedAction) (xs : List PlannedAction) → count k xs ≤ 0 → any (same_key k) xs ≡ false
count-any k [] h = refl
count-any k (a ∷ as') h = let rest = count-any k as' in ground arith

pub repeats-count :
    (xs : List PlannedAction) → repeats xs ≡ false → (k : PlannedAction) → count k xs ≤ 1
repeats-count [] h k = omega arith
repeats-count (a ∷ as') h k =
    let rest = repeats-count as' (ground arith) k in
    elim (Bool-cases (same_key k a)) [
      | inl e ↦
          let none_left = any-count a as' (ground arith) in
          let same = same_key-count k a as' e in rw e (omega (arith, none_left, same))
      | inr e ↦ rw e (omega (arith, rest))
    ]

same_key_refl : (a : PlannedAction) → same_key a a ≡ true
same_key_refl a = rw (==_refl (kind_rank a.kind), ==_refl a.subject_id) refl

pub count-repeats :
    (xs : List PlannedAction) → ((k : PlannedAction) → count k xs ≤ 1) → repeats xs ≡ false
count-repeats [] h = refl
count-repeats (a ∷ as') h =
    let self = same_key_refl a in
    let here = h a in
    let first = count-any a as' (ground arith) in
    let rest = count-repeats as' (λ k. let at = h k in ground arith) in ground arith
