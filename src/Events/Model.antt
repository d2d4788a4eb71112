-- ===== src/Events/Model.antt =====
-- The records of src/dyro/events.py, and the checks of what is written. A text is the list of its
-- code points; `encoded_size` is the length of the line that a record is printed as.
use dyro_engineering_flow.Prelude.{
  ℕ, Bool, true, false, not, ◌&&◌, List, [], ◌∷◌, leb, ltb, ◌==◌, all, length, member,
}

-- The codes of `EventLogError`.
pub data EventLogError : Type 0 where
  write_invalid log_invalid cursor_invalid limit_invalid : EventLogError

pub data Result (A : Type 0) : Type 0 where
  ok : A → Result A
  err : EventLogError → Result A

infixl 5 ◌>>=◌
abbrev pub ◌>>=◌ : {A B : Type 0} → Result A → (A → Result B) → Result B
ok a >>= f = f a
err e >>= f = err e

-- A number of a fact is not negative where the code accepts it.
pub data FactValue : Type 0 where
  flag : Bool → FactValue
  number : ℕ → FactValue
  text : List ℕ → FactValue

-- `id` is the number that stands behind `evt_`.
pub record Event : Type 0 where
  pub seq : ℕ
  pub id : ℕ
  pub kind : ℕ
  pub instant : ℕ
  pub actor : List ℕ
  pub subject : List ℕ
  pub family : List ℕ
  pub facts : List (List ℕ × FactValue)

-- The arguments of `append_event`; the instant is the one that the clock shows.
pub record Append : Type 0 where
  pub kind : ℕ
  pub instant : ℕ
  pub actor : List ℕ
  pub subject : List ℕ
  pub family : List ℕ
  pub facts : List (List ℕ × FactValue)

abbrev pub max_event_log_bytes : ℕ
max_event_log_bytes = 2097152

abbrev pub first_allowed : List ℕ → Bool
first_allowed [] = false
first_allowed (c ∷ _) = not (member c (46 ∷ 95 ∷ 45 ∷ []))

-- `_SAFE_ID`, `_SAFE_FACT`, the tokens that a text of a fact must not contain, and `EVENT_KINDS`
pub record Alphabet : Type 0 where
  pub is_safe_id : ℕ → Bool
  pub is_safe_fact : ℕ → Bool
  pub has_forbidden : List ℕ → Bool
  pub event_kinds : List ℕ

module _ (alphabet : Alphabet) where
  -- `_safe_token`
  unfoldable pub safe_token : List ℕ → Bool → Bool
  safe_token [] allow_empty = allow_empty
  safe_token (c ∷ cs) allow_empty =
      leb (length (c ∷ cs)) 80 && first_allowed (c ∷ cs) && all alphabet.is_safe_id (c ∷ cs)

  -- `_clean_fact_key`
  unfoldable pub clean_fact_key : List ℕ → Bool
  clean_fact_key key = ltb 0 (length key) && leb (length key) 40 && all alphabet.is_safe_fact key

  -- `_clean_fact_value`
  unfoldable pub clean_fact_value : FactValue → Bool
  clean_fact_value (flag b) = true
  clean_fact_value (number n) = leb n 1000000
  clean_fact_value (text t) =
      leb (length t) 80 && all (λ c. leb 32 c && not (c == 127)) t && not (alphabet.has_forbidden t)

  -- `_clean_facts`
  unfoldable pub clean_facts : List (List ℕ × FactValue) → Bool
  unfolding clean_fact_key clean_fact_value
  clean_facts facts =
      leb (length facts) 16 && all (λ p. clean_fact_key p.0 && clean_fact_value p.1) facts

  -- The checks of `append_event_locked`
  unfoldable pub append_accepted : Append → Bool
  unfolding safe_token clean_facts
  append_accepted a =
      member a.kind alphabet.event_kinds
      && safe_token a.actor false
      && safe_token a.subject false
      && safe_token a.family true
      && clean_facts a.facts

abbrev pub event_of : ℕ → Append → Event
event_of seq a = record {
  seq = seq;
  id = seq;
  kind = a.kind;
  instant = a.instant;
  actor = a.actor;
  subject = a.subject;
  family = a.family;
  facts = a.facts;
}
