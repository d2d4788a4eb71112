-- ===== src/Events/Calls.antt =====
-- `append_event` of src/dyro/events.py at a log whose files hold what was appended.
use dyro_engineering_flow.Prelude.{
  ℕ, ◌+◌, ◌<◌, ◌≡◌, refl, ap, sym, ◌∙◌, Bool, true, inl, inr, List, [], ◌∷◌, ◌++◌, arith, length,
  length-append, All-weaken, Bool-cases,
}
use dyro_engineering_flow.Events.Model.{Result, ok, Event, Append, Alphabet, event_of}
use dyro_engineering_flow.Events.Log.{
  append_to, EventFile, Entry, missing, not_a_file, is_file, EventLog, is_chunk, insert_at,
  last_seq, append_text, is_full, rotate,
}
use dyro_engineering_flow.Events.Chunks.{IsNumbered, IsNumbered-append, last_seq-IsNumbered}
use dyro_engineering_flow.Events.Appended.{has_archive-new, chunk-positive, read_file-current, Inv}
use dyro_engineering_flow.Events.Growth.{IsNext, put-missing, put-file, rotated-Inv}

-- The answer of a call, and the log after it.
pub record Appends (answer : Result Event × EventLog) (gap : Bool) (events : List Event) (e : Event)
    : Type 0 where
  pub archives : List (ℕ × EventFile)
  pub current : Entry
  pub answers : answer ≡ (ok e, record { archives = archives; current = current; gap = gap })
  pub keeps : Inv archives current (events ++ e ∷ [])

IsNumbered-whole :
    (archives : List (ℕ × EventFile)) (current : Entry) (events : List Event)
    → Inv archives current events
    → IsNumbered 1 events
IsNumbered-whole archives current events i =
    rw i.whole (IsNumbered-append 1 i.old i.recent i.numbered i.continued)

last-whole : (events : List Event) → IsNumbered 1 events → last_seq 0 events ≡ length events
last-whole events h = omega (arith, last_seq-IsNumbered 0 0 events h refl)

last-recent :
    (n m : ℕ) (es : List Event)
    → is_chunk es ≡ true
    → IsNumbered (1 + n) es
    → last_seq m es ≡ n + length es
last-recent n m [] c h = ground arith
last-recent n m (e ∷ es) c (s, i, h) = omega (arith, last_seq-IsNumbered (1 + n) e.seq es h s)

-- A full file becomes an archive under a name that is free.
rotate-ok :
    (position before : ℕ) (archives : List (ℕ × EventFile)) (f : EventFile) (gap : Bool)
    (events : List Event)
    → Inv archives (is_file f) events
    → rotate position before (record { archives = archives; current = is_file f; gap = gap })
      ≡ ok (record {
        archives = insert_at position (length events, f) archives;
        current = missing;
        gap = gap;
      })
rotate-ok position before archives f gap events i =
    let count : length events ≡ length i.old + length i.recent =
      ap length i.whole ∙ length-append i.old i.recent in
    let file = read_file-current (1 + length i.old) f i.recent (omega arith) i.continued i.holds in
    let last : last_seq before i.recent ≡ length events =
      last-recent (length i.old) before i.recent i.holds.1 i.continued ∙ sym count in
    let free = has_archive-new (length events) archives (
      All-weaken (λ b. b.0 < 1 + length i.old) (λ b. b.0 < length events) archives
        (λ b h. omega (arith, h, count, chunk-positive i.recent i.holds.1)) i.names) in
    rw (file, last, free) refl

module _ (alphabet : Alphabet) (encoded_size : Event → ℕ) where
  pub append_to-Appends :
      (a : Append) (position : ℕ) (archives : List (ℕ × EventFile)) (current : Entry) (gap : Bool)
      (events : List Event)
      → IsNext events
          (event_of (length events + 1) a)
          (encoded_size (event_of (length events + 1) a))
      → Inv archives current events
      → Appends
          (append_to alphabet encoded_size a position
            (ok events)
            (record { archives = archives; current = current; gap = gap }))
          gap
          events
          (event_of (length events + 1) a)
  append_to-Appends a position archives not_a_file gap events x i = elim i.holds [ ]
  append_to-Appends a position archives missing gap events x i =
      let e = event_of (length events + 1) a in
      let n = encoded_size e in
      let last : last_seq 0 events ≡ length events =
        last-whole events (IsNumbered-whole archives missing events i) in
      record {
        archives = archives;
        current = append_text missing e n;
        answers = rw last refl;
        keeps = put-missing archives events e n x i;
      }
  append_to-Appends a position archives (is_file f) gap events x i =
      let e = event_of (length events + 1) a in
      let n = encoded_size e in
      let last : last_seq 0 events ≡ length events =
        last-whole events (IsNumbered-whole archives (is_file f) events i) in
      elim (Bool-cases (is_full (is_file f) n)) [
        | inr room ↦ record {
          archives = archives;
          current = append_text (is_file f) e n;
          answers = rw (last, room) refl;
          keeps = put-file archives events f e n x (ground arith) i;
        }
        | inl full ↦ record {
          archives = insert_at position (length events, f) archives;
          current = append_text missing e n;
          answers =
              rw (last, full, rotate-ok position (length events) archives f gap events i) refl;
          keeps = put-missing _ events e n x (rotated-Inv archives events position f i);
        }
      ]
