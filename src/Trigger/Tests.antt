-- ===== src/Trigger/Tests.antt =====
-- A trigger that waits between thirty seconds and a quarter of an hour, and a provider's payload.
use dyro_engineering_flow.Prelude.{
  ℕ, ◌+◌, ◌≤◌, ◌<◌, ◌≡◌, refl, Bool, false, Option, none, some, List, [], ◌∷◌, arith,
}
use dyro_engineering_flow.Trigger.Model.{
  time_due, timeout, pending, waiting, given, TriggerObservation, TriggerConfig,
  TriggerProbeSchedule, config_accepted,
}
use dyro_engineering_flow.Trigger.Schedule.{interval_after, jitter_seconds, next_probe_schedule}
use dyro_engineering_flow.Trigger.Backoff.{next_probe_schedule-bounds, backoff_grows}
use dyro_engineering_flow.Trigger.Provider.{
  schema_version, state, summary, int, text, pending_text, IsoTime, at, Loaded, object,
}

abbrev digest : ℕ → ℕ → ℕ → ℕ
digest id cycles interval = id + cycles + interval

abbrev config : TriggerConfig
config = record {
  id = 5;
  kind = time_due;
  not_before = some 100;
  min_interval_seconds = 30;
  max_interval_seconds = 900;
}

abbrev seen : TriggerObservation
seen = record {
  trigger_id = 5;
  state = pending;
  summary = waiting;
  evidence_ref = [];
  observed_at = some 50;
  next_probe_at = none;
}

accepted : config_accepted config ≡ Bool.true
unfolding config_accepted
accepted = refl

abbrev first : TriggerProbeSchedule
first = record { next_probe_at = some 1030; unchanged_cycles = 1; is_disabled = false }

abbrev second : TriggerProbeSchedule
second = record { next_probe_at = some 1064; unchanged_cycles = 2; is_disabled = false }

first_built : next_probe_schedule digest config seen 0 1000 false none ≡ some first
unfolding next_probe_schedule interval_after jitter_seconds
first_built = refl

second_built : next_probe_schedule digest config seen 1 1000 false (some timeout) ≡ some second
unfolding next_probe_schedule interval_after jitter_seconds
second_built = refl

next_probe_schedule-bounds_example :
    (1000 < 1030) × (1000 + 30 ≤ 1030) × (1030 ≤ 1000 + 900) × (first.unchanged_cycles ≡ 0 + 1)
next_probe_schedule-bounds_example =
    next_probe_schedule-bounds digest config seen 0 1000 none accepted first_built refl

backoff_grows_example : 1030 + 1000 ≤ 1064 + 1000
backoff_grows_example =
    backoff_grows digest config seen seen 0 1000 1000 none (some timeout) accepted first_built refl
      second_built refl (omega arith)

-- The payload stands for an object whose summary is `ok`.
abbrev loads : List ℕ → Option Loaded
loads _ = some (
    object (
      (schema_version, int 1)
      ∷ (state, text pending_text)
      ∷ (summary, text (b'o' ∷ b'k' ∷ []))
      ∷ []))

abbrev from_iso : List ℕ → IsoTime
from_iso _ = at 0

abbrev secret_marker : List ℕ → Bool
secret_marker _ = false

abbrev payload : List ℕ
payload = 1 ∷ []

abbrev observed : TriggerObservation
observed = record {
  trigger_id = 5;
  state = pending;
  summary = given (b'o' ∷ b'k' ∷ []);
  evidence_ref = [];
  observed_at = some 70;
  next_probe_at = none;
}
