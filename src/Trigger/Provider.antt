-- ===== src/Trigger/Provider.antt =====
-- `parse_provider_observation` of src/dyro/continuation/triggers.py. Parameters are `json.loads` on
-- the decoded bytes, `datetime.fromisoformat`, and the search for the marker of a secret.
use dyro_engineering_flow.Prelude.{
  ℕ, Bool, true, false, not, ◌&&◌, ◌||◌, Option, none, some, List, [], ◌∷◌, ltb, leb, ◌==◌, any,
  length, if◌then◌else◌,
}
use dyro_engineering_flow.Trigger.Model.{
  TriggerState, pending, satisfied, error, disabled, given, TriggerObservation, max_provider_bytes,
  max_summary_length,
}

-- A JSON value: `other` is a list, an object, a float, or a negative number.
pub data Json : Type 0 where
  null other : Json
  bool : Bool → Json
  int : ℕ → Json
  text : List ℕ → Json

-- The keys that are allowed, and any other.
pub data Key : Type 0 where
  schema_version state summary evidence_ref next_probe_at : Key
  unknown : ℕ → Key

pub data Loaded : Type 0 where
  object : List (Key × Json) → Loaded
  not_object : Loaded

-- What `datetime.fromisoformat` makes of a text.
pub data IsoTime : Type 0 where
  invalid naive : IsoTime
  at : ℕ → IsoTime

-- The `raise` statements by their message.
pub data ParseError : Type 0 where
  maximum_range too_large not_json not_an_object unknown_fields wrong_version state_invalid
        summary_invalid summary_secret evidence_invalid evidence_secret time_invalid time_naive
        time_too_early :
      ParseError

pub data Parsed (A : Type 0) : Type 0 where
  ok : A → Parsed A
  err : ParseError → Parsed A

infixl 5 ◌>>=◌ ◌>>◌
abbrev pub ◌>>=◌ : {A B : Type 0} → Parsed A → (A → Parsed B) → Parsed B
ok a >>= f = f a
err e >>= f = err e

abbrev pub ◌>>◌ : {B : Type 0} → Parsed (Unit {0}) → Parsed B → Parsed B
m >> k = m >>= λ _. k

abbrev pub guard : Bool → ParseError → Parsed (Unit {0})
guard b e = if b then ok tt else err e

abbrev pub key_code : Key → ℕ
key_code schema_version = 1
key_code state = 2
key_code summary = 3
key_code evidence_ref = 4
key_code next_probe_at = 5
key_code (unknown n) = 0

-- `raw.get(key)`, for an allowed key
abbrev pub get : Key → List (Key × Json) → Option Json
get k [] = none
get k ((j, v) ∷ rest) = if key_code j == key_code k then some v else get k rest

abbrev pub is_unknown : Key × Json → Bool
is_unknown (k, _) = key_code k == 0

abbrev pub is_one : Option Json → Bool
is_one (some (int n)) = n == 1
is_one (some _) = false
is_one none = false

abbrev pub same_text : List ℕ → List ℕ → Bool
same_text [] [] = true
same_text (a ∷ xs) (b ∷ ys) = a == b && same_text xs ys
same_text _ _ = false

-- The values of `TriggerState`
abbrev pub pending_text : List ℕ
pending_text = b'p' ∷ b'e' ∷ b'n' ∷ b'd' ∷ b'i' ∷ b'n' ∷ b'g' ∷ []

abbrev pub satisfied_text : List ℕ
satisfied_text = b's' ∷ b'a' ∷ b't' ∷ b'i' ∷ b's' ∷ b'f' ∷ b'i' ∷ b'e' ∷ b'd' ∷ []

abbrev pub error_text : List ℕ
error_text = b'e' ∷ b'r' ∷ b'r' ∷ b'o' ∷ b'r' ∷ []

abbrev pub disabled_text : List ℕ
disabled_text = b'd' ∷ b'i' ∷ b's' ∷ b'a' ∷ b'b' ∷ b'l' ∷ b'e' ∷ b'd' ∷ []

-- `TriggerState(raw.get("state"))`
unfoldable pub read_state : Option Json → Parsed TriggerState
read_state (some (text t)) =
    if same_text t pending_text
    then ok pending
    else if same_text t satisfied_text
    then ok satisfied
    else if same_text t error_text
    then ok error
    else if same_text t disabled_text
    then ok disabled
    else err state_invalid
read_state (some _) = err state_invalid
read_state none = err state_invalid

-- `".." in value` and `value.startswith("/")`
abbrev pub has_dots : List ℕ → Bool
has_dots [] = false
has_dots (a ∷ []) = false
has_dots (a ∷ b ∷ rest) = (a == b'.' && b == b'.') || has_dots (b ∷ rest)

abbrev pub starts_at_root : List ℕ → Bool
starts_at_root [] = false
starts_at_root (a ∷ _) = a == b'/'

-- A text as it stands under a key, and what stands for another value.
abbrev pub text_or : List ℕ → Option Json → Option (List ℕ)
text_or default none = some default
text_or default (some (text t)) = some t
text_or default (some _) = none

module _ (loads : List ℕ → Option Loaded) (from_iso : List ℕ → IsoTime)
    (secret_marker : List ℕ → Bool) where
  -- The text may be shown: it holds no secret and no control character.
  abbrev pub suspicious : List ℕ → Bool
  suspicious t = secret_marker t || any (λ c. ltb c 32) t

  unfoldable pub read_summary : Option Json → Parsed (List ℕ)
  read_summary (some (text t)) = do
    guard (ltb 0 (length t) && leb (length t) max_summary_length) summary_invalid
    guard (not (suspicious t)) summary_secret
    ok t
  read_summary (some _) = err summary_invalid
  read_summary none = err summary_invalid

  abbrev pub checked_evidence : Option (List ℕ) → Parsed (List ℕ)
  checked_evidence none = err evidence_invalid
  checked_evidence (some t) = do
    guard (leb (length t) max_summary_length && not (has_dots t) && not (starts_at_root t))
        evidence_invalid
    guard (not (suspicious t)) evidence_secret
    ok t

  -- `raw.get("evidence_ref", "")` and its checks
  unfoldable pub read_evidence : Option Json → Parsed (List ℕ)
  read_evidence v = checked_evidence (text_or [] v)

  abbrev pub read_iso : IsoTime → Parsed (Option ℕ)
  read_iso invalid = err time_invalid
  read_iso naive = err time_naive
  read_iso (at n) = ok (some n)

  -- `_parse_time`
  unfoldable pub parse_time : Option Json → Parsed (Option ℕ)
  parse_time none = ok none
  parse_time (some null) = ok none
  parse_time (some (text t)) = if leb (length t) 0 then err time_invalid else read_iso (from_iso t)
  parse_time (some _) = err time_invalid

  abbrev pub not_before : Option ℕ → ℕ → Bool
  not_before none observed_at = true
  not_before (some n) observed_at = leb observed_at n

  unfoldable pub parse_fields : ℕ → ℕ → List (Key × Json) → Parsed TriggerObservation
  unfolding read_state read_summary read_evidence parse_time
  parse_fields trigger_id observed_at raw = do
    guard (not (any is_unknown raw)) unknown_fields
    guard (is_one (get schema_version raw)) wrong_version
    s ← read_state (get state raw)
    t ← read_summary (get summary raw)
    e ← read_evidence (get evidence_ref raw)
    n ← parse_time (get next_probe_at raw)
    guard (not_before n observed_at) time_too_early
    ok (record {
      trigger_id = trigger_id;
      state = s;
      summary = given t;
      evidence_ref = e;
      observed_at = some observed_at;
      next_probe_at = n;
    })

  abbrev pub parse_loaded : ℕ → ℕ → Option Loaded → Parsed TriggerObservation
  parse_loaded trigger_id observed_at none = err not_json
  parse_loaded trigger_id observed_at (some not_object) = err not_an_object
  parse_loaded trigger_id observed_at (some (object raw)) = parse_fields trigger_id observed_at raw

  unfoldable pub parse_provider_observation :
      (payload : List ℕ) (trigger_id observed_at maximum_bytes : ℕ) → Parsed TriggerObservation
  unfolding parse_fields
  parse_provider_observation payload trigger_id observed_at maximum_bytes = do
    guard (leb 1 maximum_bytes && leb maximum_bytes max_provider_bytes) maximum_range
    guard (leb (length payload) maximum_bytes) too_large
    parse_loaded trigger_id observed_at (loads payload)
