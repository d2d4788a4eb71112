-- ===== src/Trigger/Model.antt =====
-- The records of src/dyro/continuation/triggers.py with the checks of their `__post_init__`, and the
-- observation of src/dyro/continuation/models.py. An identifier is a number, and one that
-- `validate_id` accepts; a value of a fact is a number, 0 for the empty text; an instant is a number
-- of seconds; a text that is read is the list of its code points.
use dyro_engineering_flow.Prelude.{
  ℕ, Bool, true, not, ◌&&◌, ◌||◌, Option, none, some, List, [], ◌∷◌, leb, ltb, ◌==◌, all, member,
  length, if◌then◌else◌,
}
use dyro_engineering_flow.Prelude.Sort.{sort_by}

pub data TriggerKind : Type 0 where
  time_due task_state decision_state manual_signal local_ref provider : TriggerKind

pub data TriggerErrorKind : Type 0 where
  transient permanent auth_missing invalid_output timeout : TriggerErrorKind

pub data TriggerState : Type 0 where
  pending satisfied error disabled : TriggerState

-- The summaries of the built-in triggers by name, and the text of a provider.
pub data Summary : Type 0 where
  due waiting state_changed state_unchanged decision_resolved decision_open : Summary
  signal_present signal_absent provider_requires_bounded_adapter : Summary
  given : List ℕ → Summary

pub record TriggerObservation : Type 0 where
  pub trigger_id : ℕ
  pub state : TriggerState
  pub summary : Summary
  pub evidence_ref : List ℕ
  pub observed_at : Option ℕ
  pub next_probe_at : Option ℕ

-- `MAX_PROVIDER_BYTES` and `MAX_SUMMARY_LENGTH`
abbrev pub max_provider_bytes : ℕ
max_provider_bytes = 65536

abbrev pub max_summary_length : ℕ
max_summary_length = 512

pub record ProviderDescriptor : Type 0 where
  pub id : ℕ
  pub trigger_ids : List ℕ
  pub timeout_seconds : ℕ
  pub maximum_bytes : ℕ

abbrev pub unique : List ℕ → Bool
unique [] = true
unique (x ∷ xs) = not (member x xs) && unique xs

-- `ProviderDescriptor.__post_init__`
unfoldable pub descriptor_accepted : ProviderDescriptor → Bool
descriptor_accepted d =
    ltb 0 (length d.trigger_ids)
    && unique d.trigger_ids
    && leb 1 d.timeout_seconds
    && leb d.timeout_seconds 300
    && leb 1 d.maximum_bytes
    && leb d.maximum_bytes max_provider_bytes

pub record TriggerConfig : Type 0 where
  pub id : ℕ
  pub kind : TriggerKind
  pub not_before : Option ℕ
  pub min_interval_seconds : ℕ
  pub max_interval_seconds : ℕ

-- `TriggerConfig.__post_init__`
unfoldable pub config_accepted : TriggerConfig → Bool
config_accepted c =
    leb 1 c.min_interval_seconds
    && leb 1 c.max_interval_seconds
    && leb c.min_interval_seconds c.max_interval_seconds

abbrev pub Facts : Type 0
Facts = List (ℕ × ℕ)

abbrev pub fact_le : ℕ × ℕ → ℕ × ℕ → Bool
fact_le (a, b) (c, d) = ltb a c || (a == c && leb b d)

-- `_facts`: non-empty texts, sorted
unfoldable pub read_facts : Facts → Option Facts
unfolding sort_by
read_facts facts =
    if all (λ p. not (p.0 == 0) && not (p.1 == 0)) facts then some (sort_by fact_le facts) else none

abbrev pub same_facts : Facts → Facts → Bool
same_facts [] [] = true
same_facts ((a, b) ∷ xs) ((c, d) ∷ ys) = a == c && b == d && same_facts xs ys
same_facts _ _ = Bool.false

pub record TriggerProbeInput : Type 0 where
  pub config : TriggerConfig
  pub now : ℕ
  pub current_facts : Facts
  pub previous_facts : Facts
  pub manual_signal : List ℕ

-- `TriggerProbeInput.__post_init__`
unfoldable pub probe_input : TriggerProbeInput → Option TriggerProbeInput
unfolding read_facts
probe_input i = elim (read_facts i.current_facts) [
  | none ↦ none
  | some current ↦ elim (read_facts i.previous_facts) [
    | none ↦ none
    | some previous ↦
        if leb (length i.manual_signal) max_summary_length
        then some (record i { current_facts = current; previous_facts = previous })
        else none
  ]
]

pub record TriggerProbeSchedule : Type 0 where
  pub next_probe_at : Option ℕ
  pub unchanged_cycles : ℕ
  pub is_disabled : Bool
