-- ===== src/Budget/Progress.antt =====
-- `progress_fingerprint` and `decide_no_progress` of src/dyro/continuation/budgets.py. The
-- digest of a payload (SHA-256 of its canonical JSON) is a parameter; 0 is the empty fingerprint.
use dyro_engineering_flow.Prelude.{
  ℕ, ◌+◌, ◌≤◌, ◌≡◌, ◌↔◌, refl, Bool, true, false, not, ◌&&◌, ◌||◌, Option, none, some, List, [],
  ◌∷◌, arith, ltb, leb, ◌==◌, if◌then◌else◌, length, All,
}
use dyro_engineering_flow.Prelude.Sort.{sort_by}

pub record ProgressFacts : Type 0 where
  pub task_states : List (ℕ × ℕ)
  pub integration_heads : List (ℕ × ℕ)
  pub decisions : List (ℕ × ℕ)
  pub effective_evidence : List (ℕ × ℕ)
  pub trigger_observations : List (ℕ × ℕ)

abbrev pair_le : ℕ × ℕ → ℕ × ℕ → Bool
pair_le (a, b) (c, d) = ltb a c || (a == c && not (ltb d b))

-- `ProgressFacts.__post_init__`: every collection is sorted.
unfoldable pub progress_facts : ProgressFacts → ProgressFacts
unfolding sort_by
progress_facts f = record {
  task_states = sort_by pair_le f.task_states;
  integration_heads = sort_by pair_le f.integration_heads;
  decisions = sort_by pair_le f.decisions;
  effective_evidence = sort_by pair_le f.effective_evidence;
  trigger_observations = sort_by pair_le f.trigger_observations;
}

-- The payload that is hashed: the trigger observations stay out.
pub record Payload : Type 0 where
  pub task_states : List (ℕ × ℕ)
  pub integration_heads : List (ℕ × ℕ)
  pub decisions : List (ℕ × ℕ)
  pub effective_evidence : List (ℕ × ℕ)

unfoldable pub payload : ProgressFacts → Payload
payload f = record {
  task_states = f.task_states;
  integration_heads = f.integration_heads;
  decisions = f.decisions;
  effective_evidence = f.effective_evidence;
}

pub record NoProgressDecision : Type 0 where
  pub fingerprint : ℕ
  pub cycles : ℕ
  pub reset : Bool
  pub exhausted : Bool

module _ (digest : Payload → ℕ) where
  unfoldable pub progress_fingerprint : ProgressFacts → ℕ
  unfolding payload
  progress_fingerprint facts = digest (payload facts)

  -- `none` is the `TypeError` on a maximum below 1.
  unfoldable pub decide_no_progress : ℕ → ℕ → ProgressFacts → ℕ → Option NoProgressDecision
  unfolding progress_fingerprint
  decide_no_progress previous_fingerprint previous_cycles current maximum =
      let current_fingerprint = progress_fingerprint current in
      let reset =
        not (previous_fingerprint == 0) && not (previous_fingerprint == current_fingerprint) in
      let cycles = if reset then 0 else previous_cycles + 1 in
      if ltb maximum 1
      then none
      else some (record {
        fingerprint = current_fingerprint;
        cycles = cycles;
        reset = reset;
        exhausted = leb maximum cycles;
      })

  -- Successive observations, each with the fingerprint and the cycles of the one before.
  pub watch : ℕ → NoProgressDecision → List ProgressFacts → Option NoProgressDecision
  watch maximum last [] = some last
  watch maximum last (f ∷ fs) = elim (decide_no_progress last.fingerprint last.cycles f maximum) [
    | none ↦ none
    | some next ↦ watch maximum next fs
  ]

  abbrev SameDelivery : ProgressFacts → ProgressFacts → Type 0
  SameDelivery f g = payload f ≡ payload g

  step_same :
      (f : ProgressFacts) (fingerprint cycles maximum : ℕ)
      → 1 ≤ maximum
      → fingerprint ≡ digest (payload f)
      → decide_no_progress fingerprint cycles f maximum
        ≡ some (record {
          fingerprint = fingerprint;
          cycles = cycles + 1;
          reset = false;
          exhausted = leb maximum (cycles + 1);
        })
  unfolding decide_no_progress
  step_same f fingerprint cycles maximum h e = ground arith

  -- While the delivery facts stay as they were, whatever the trigger observations do, every
  -- observation adds a cycle and none resets; the count is exhausted exactly when it has reached
  -- the maximum.
  pub watch_same_delivery :
      (base : ProgressFacts) (maximum : ℕ) (last : NoProgressDecision) (f : ProgressFacts)
      (fs : List ProgressFacts)
      → 1 ≤ maximum
      → last.fingerprint ≡ progress_fingerprint base
      → All (λ g. payload g ≡ payload base) (f ∷ fs)
      → (end : NoProgressDecision) × (watch maximum last (f ∷ fs) ≡ some end)
        × (end.cycles ≡ last.cycles + length (f ∷ fs))
        × (end.reset ≡ false)
        × ((end.exhausted ≡ true) ↔ (maximum ≤ last.cycles + length (f ∷ fs)))
  unfolding watch progress_fingerprint
  watch_same_delivery base maximum last f [] h e (same, _) =
      let next : NoProgressDecision = record {
        fingerprint = last.fingerprint;
        cycles = last.cycles + 1;
        reset = false;
        exhausted = leb maximum (last.cycles + 1);
      } in
      (
        next,
        rw (watch, step_same f last.fingerprint last.cycles maximum h (rw same e)),
        refl,
        refl,
        ground arith,
      )
  watch_same_delivery base maximum last f (g ∷ gs) h e (same, rest) =
      let next : NoProgressDecision = record {
        fingerprint = last.fingerprint;
        cycles = last.cycles + 1;
        reset = false;
        exhausted = leb maximum (last.cycles + 1);
      } in
      let (end, run, count, reset, exhausted) =
        watch_same_delivery base maximum next g gs h e rest in
      (
        end,
        rw (watch, step_same f last.fingerprint last.cycles maximum h (rw same e)) run,
        omega (arith, count),
        reset,
        (λ x. omega (arith, exhausted.0 x), λ x. exhausted.1 (omega arith)),
      )
