-- ===== src/Trigger/Schedule.antt =====
-- `probe_builtin` and `next_probe_schedule` of src/dyro/continuation/triggers.py. The SHA-256 digest
-- that the jitter reads is a parameter.
use dyro_engineering_flow.Prelude.{
  ℕ, ◌+◌, ◌-◌, ◌*◌, ◌/◌, ◌%◌, ◌^◌, min, max, Bool, true, false, not, ◌&&◌, ◌||◌, Option, none, some,
  List, [], ◌∷◌, leb, ◌==◌, any, if◌then◌else◌,
}
use dyro_engineering_flow.Trigger.Model.{
  TriggerKind, time_due, task_state, decision_state, manual_signal, local_ref, provider,
  TriggerErrorKind, transient, permanent, auth_missing, invalid_output, timeout, TriggerState,
  pending, satisfied, disabled, Summary, due, waiting, state_changed, state_unchanged,
  decision_resolved, decision_open, signal_present, signal_absent,
  provider_requires_bounded_adapter, TriggerObservation, TriggerConfig, Facts, same_facts,
  TriggerProbeInput, TriggerProbeSchedule,
}

-- `_observation`
abbrev pub observation : TriggerConfig → TriggerState → Summary → ℕ → TriggerObservation
observation config state summary now = record {
  trigger_id = config.id;
  state = state;
  summary = summary;
  evidence_ref = [];
  observed_at = some now;
  next_probe_at = none;
}

abbrev pub is_empty : {A : Type 0} → List A → Bool
is_empty [] = true
is_empty (_ ∷ _) = false

-- A trigger that is satisfied by a test.
abbrev pub by_test : TriggerProbeInput → Bool → Summary → Summary → TriggerObservation
by_test input test now_so not_yet =
    observation input.config (if test then satisfied else pending)
      (if test then now_so else not_yet) input.now

abbrev pub is_due : Option ℕ → ℕ → Bool
is_due none now = false
is_due (some start) now = leb start now

abbrev pub facts_changed : Facts → Facts → Bool
facts_changed current previous =
    not (same_facts current previous) && (not (is_empty current) || not (is_empty previous))

-- The text `resolved` is a parameter.
module _ (resolved : ℕ) where
  abbrev pub probe_kind : TriggerKind → TriggerProbeInput → TriggerObservation
  probe_kind time_due i = by_test i (is_due i.config.not_before i.now) due waiting
  probe_kind task_state i =
      by_test i (facts_changed i.current_facts i.previous_facts) state_changed state_unchanged
  probe_kind local_ref i =
      by_test i (facts_changed i.current_facts i.previous_facts) state_changed state_unchanged
  probe_kind decision_state i =
      by_test i (any (λ p. p.1 == resolved) i.current_facts) decision_resolved decision_open
  probe_kind manual_signal i =
      by_test i (not (is_empty i.manual_signal)) signal_present signal_absent
  probe_kind provider i = observation i.config disabled provider_requires_bounded_adapter i.now

  unfoldable pub probe_builtin : TriggerProbeInput → TriggerObservation
  probe_builtin i = probe_kind i.config.kind i

abbrev pub stops : Option TriggerErrorKind → Bool
stops none = false
stops (some transient) = false
stops (some permanent) = true
stops (some auth_missing) = true
stops (some invalid_output) = true
stops (some timeout) = false

abbrev pub is_disabled_state : TriggerState → Bool
is_disabled_state disabled = true
is_disabled_state _ = false

-- The first four bytes of the digest of the three values.
module _ (digest : (id cycles interval : ℕ) → ℕ) where
  unfoldable pub jitter_seconds : TriggerConfig → ℕ → ℕ → ℕ
  jitter_seconds config cycles interval =
      let window = max 1 (interval / 10) in digest config.id cycles interval % (window + 1)

  -- The interval after `cycles` cycles without a change, before and after the jitter.
  abbrev pub base_interval : TriggerConfig → ℕ → ℕ
  base_interval config cycles =
      min config.max_interval_seconds (config.min_interval_seconds * 2 ^ min (cycles - 1) 30)

  unfoldable pub interval_after : TriggerConfig → ℕ → ℕ
  interval_after config cycles =
      let interval = base_interval config cycles in
      min config.max_interval_seconds (interval + jitter_seconds config cycles interval)

  abbrev pub no_schedule : ℕ → TriggerProbeSchedule
  no_schedule cycles = record {
    next_probe_at = none;
    unchanged_cycles = cycles;
    is_disabled = true;
  }

  -- No answer where the observation is of another trigger.
  unfoldable pub next_probe_schedule :
      TriggerConfig
      → TriggerObservation
      → (unchanged_cycles now : ℕ) (changed : Bool) (error_kind : Option TriggerErrorKind)
      → Option TriggerProbeSchedule
  next_probe_schedule config o unchanged_cycles now changed error_kind =
      if not (o.trigger_id == config.id)
      then none
      else if stops error_kind
      then some (no_schedule unchanged_cycles)
      else if is_disabled_state o.state
      then some (no_schedule unchanged_cycles)
      else if changed
      then some (record { next_probe_at = some now; unchanged_cycles = 0; is_disabled = false })
      else some (record {
        next_probe_at = some (now + interval_after config (unchanged_cycles + 1));
        unchanged_cycles = unchanged_cycles + 1;
        is_disabled = false;
      })
