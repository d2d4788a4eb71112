-- ===== src/Events/Tests.antt =====
-- Three appends, of which one is refused, to a log that is rotated after each record.
use dyro_engineering_flow.Prelude.{
  All, ℕ, ◌≡◌, refl, ◌&&◌, false, leb, List, [], ◌∷◌, arith, take, length,
}
use dyro_engineering_flow.Events.Model.{
  text, err, log_invalid, Append, Alphabet, Event, ok, event_of, append_accepted, number,
}
use dyro_engineering_flow.Events.Log.{
  missing, append_event, append_all, read_locked_records, read_events, drop,
}
use dyro_engineering_flow.Events.Reads
use dyro_engineering_flow.Events.Reads.{log_of, accepted, append_all-reads, read_events-pages}

abbrev alphabet : Alphabet
alphabet = record {
  is_safe_id = λ c. leb 97 c && leb c 122;
  is_safe_fact = λ c. leb 97 c && leb c 122;
  has_forbidden = λ t. false;
  event_kinds = 1 ∷ 2 ∷ [];
}

abbrev call_of : ℕ → ℕ → Append
call_of kind instant = record {
  kind = kind;
  instant = instant;
  actor = 97 ∷ [];
  subject = 98 ∷ [];
  family = [];
  facts = (99 ∷ [], number 7) ∷ [];
}

-- A size at which no two records share a file.
abbrev encoded_size : Event → ℕ
encoded_size e = 1500000

abbrev calls : List (Append × ℕ)
calls = (call_of 1 10, 0) ∷ (call_of 9 11, 0) ∷ (call_of 2 12, 0) ∷ (call_of 1 13, 1) ∷ []

abbrev valid_calls : List Append
valid_calls = call_of 1 10 ∷ call_of 2 12 ∷ call_of 1 13 ∷ []

accepted-calls : accepted alphabet calls ≡ valid_calls
unfolding append_accepted
accepted-calls = refl

three_read :
    read_locked_records (append_all alphabet encoded_size calls (log_of [] missing false))
    ≡ ok (event_of 1 (call_of 1 10) ∷ event_of 2 (call_of 2 12) ∷ event_of 3 (call_of 1 13) ∷ [])
unfolding append_all append_event read_locked_records append_accepted
three_read = refl

clean_calls : All Reads.IsOneLine (accepted alphabet calls)
unfolding append_accepted
clean_calls = (refl, (refl, (refl, tt)))

-- A call whose fact holds U+2028 is accepted, and the log is not read again.
abbrev split_call : Append
split_call = record (call_of 1 10) { facts = (99 ∷ [], text (100 ∷ 8232 ∷ 101 ∷ [])) ∷ [] }

split_answer :
    (append_event alphabet encoded_size split_call 0 (log_of [] missing false)).0
    ≡ ok (event_of 1 split_call)
unfolding append_event read_locked_records append_accepted
split_answer = refl

split_read :
    read_locked_records
      (append_all alphabet encoded_size ((split_call, 0) ∷ []) (log_of [] missing false))
    ≡ err log_invalid
unfolding append_all append_event read_locked_records append_accepted
split_read = refl

append_all-reads_example :
    read_locked_records (append_all alphabet encoded_size calls (log_of [] missing false))
    ≡ ok (Reads.number 1 (accepted alphabet calls))
append_all-reads_example =
    append_all-reads alphabet encoded_size calls false (λ seq a h. (omega arith, omega arith))
      clean_calls

read_events-pages_example :
    read_events 1 5 (append_all alphabet encoded_size calls (log_of [] missing false))
    ≡ ok (
      take 5 (drop 1 (Reads.number 1 (accepted alphabet calls))),
      length (accepted alphabet calls),
    )
unfolding append_accepted
read_events-pages_example =
    read_events-pages alphabet encoded_size calls false 1 5 (λ seq a h. (omega arith, omega arith))
      clean_calls (omega arith) (omega arith) (omega arith)
