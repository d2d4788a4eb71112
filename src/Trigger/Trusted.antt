-- ===== src/Trigger/Trusted.antt =====
-- What `parse_provider_observation` of src/dyro/continuation/triggers.py lets through.
use dyro_engineering_flow.Prelude.{
  ℕ, ◌≤◌, ◌<◌, ◌≡◌, Bool, false, Option, none, some, List, All, length,
}
use dyro_engineering_flow.Trigger.Model.{given, TriggerObservation}
use dyro_engineering_flow.Trigger.Provider.{
  summary, evidence_ref, next_probe_at, IsoTime, Loaded, has_dots, starts_at_root,
}

-- A text that may be shown: bounded, without the marker of a secret, without control characters.
abbrev pub Shown : (List ℕ → Bool) → List ℕ → Type 0
Shown secret_marker t = (length t ≤ 512) × (secret_marker t ≡ false) × All (λ c. 32 ≤ c) t

abbrev pub NotBefore : ℕ → Option ℕ → Type 0
NotBefore observed_at none = Unit
NotBefore observed_at (some n) = observed_at ≤ n

module _ (loads : List ℕ → Option Loaded) (from_iso : List ℕ → IsoTime)
    (secret_marker : List ℕ → Bool) where
  -- What is known of an observation that was read.
  abbrev pub IsSafe : ℕ → ℕ → TriggerObservation → Type 0
  IsSafe trigger_id observed_at o =
      (o.trigger_id ≡ trigger_id)
      × (o.observed_at ≡ some observed_at)
      × ((t : List ℕ) × (o.summary ≡ given t) × (0 < length t) × Shown secret_marker t)
      × (Shown secret_marker o.evidence_ref
          × (has_dots o.evidence_ref ≡ false)
          × (starts_at_root o.evidence_ref ≡ false))
      × NotBefore observed_at o.next_probe_at
