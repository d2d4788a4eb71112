-- ===== src/Events/Log.antt =====
-- Reading and appending in src/dyro/events.py. A file is its size and its lines, each decoded as far
-- as it can be; the archives stand in the order in which the directory lists them.
use dyro_engineering_flow.Prelude.{
  map, ◌||◌, ℕ, suc, zero, ◌+◌, Bool, true, false, not, ◌&&◌, Option, none, some, List, [], ◌∷◌,
  ◌++◌, leb, ltb, ◌==◌, any, take, select, if◌then◌else◌,
}
use dyro_engineering_flow.Prelude.Sort.{sort_by}
use dyro_engineering_flow.Events.Model.{
  FactValue, text, write_invalid, log_invalid, cursor_invalid, limit_invalid, Result, ok, err,
  ◌>>=◌, Event, Append, Alphabet, max_event_log_bytes, append_accepted, event_of,
}

pub record EventFile : Type 0 where
  pub size : ℕ
  pub ends_with_newline : Bool
  pub lines : List (Option Event)

pub data Entry : Type 0 where
  missing not_a_file : Entry
  is_file : EventFile → Entry

-- `events.jsonl`, its archives with the number in their names, and `events.gap`
pub record EventLog : Type 0 where
  pub archives : List (ℕ × EventFile)
  pub current : Entry
  pub gap : Bool

-- `_decode_event`, of a line that may be no record at all
abbrev pub decode_event : Option Event → Result Event
decode_event none = err log_invalid
decode_event (some e) = if leb 1 e.seq && e.id == e.seq then ok e else err log_invalid

abbrev pub is_expected : Option ℕ → ℕ → Bool
is_expected none seq = leb 1 seq
is_expected (some n) seq = seq == n

-- The loop over the lines.
unfoldable pub read_lines : Option ℕ → List (Option Event) → Result (List Event)
read_lines expected [] = ok []
read_lines expected (l ∷ ls) = decode_event l >>= λ e.
    if is_expected expected e.seq
    then (read_lines (some (e.seq + 1)) ls >>= λ es. ok (e ∷ es))
    else err log_invalid

unfoldable pub read_file : EventFile → Result (List Event)
unfolding read_lines
read_file f =
    if ltb max_event_log_bytes f.size
    then err log_invalid
    else if f.size == 0
    then ok []
    else if not f.ends_with_newline
    then err log_invalid
    else read_lines none f.lines

-- `_read_one_event_file`
unfoldable pub read_one_event_file : Entry → Result (List Event)
unfolding read_file
read_one_event_file missing = ok []
read_one_event_file not_a_file = err log_invalid
read_one_event_file (is_file f) = read_file f

unfoldable pub read_files : List (ℕ × EventFile) → Result (List (List Event))
unfolding read_file
read_files [] = ok []
read_files ((_, f) ∷ fs) = read_file f >>= λ c. read_files fs >>= λ cs. ok (c ∷ cs)

abbrev pub first_seq : List Event → ℕ
first_seq [] = 0
first_seq (e ∷ _) = e.seq

abbrev pub is_chunk : List Event → Bool
is_chunk [] = false
is_chunk _ = true

abbrev pub chunk_le : List Event → List Event → Bool
chunk_le a b = leb (first_seq a) (first_seq b)

abbrev pub joined : List (List Event) → List Event
joined [] = []
joined (c ∷ cs) = c ++ joined cs

-- The last loop: the numbers go up from 1.
unfoldable pub in_sequence : ℕ → List Event → Bool
in_sequence n [] = true
in_sequence n (e ∷ es) = e.seq == n && in_sequence (n + 1) es

abbrev pub combine : List (List Event) → Result (List Event)
combine chunks =
    let records = joined (sort_by chunk_le (select is_chunk chunks)) in
    if in_sequence 1 records then ok records else err log_invalid

-- `_read_locked_records`
unfoldable pub read_locked_records : EventLog → Result (List Event)
unfolding read_one_event_file read_files sort_by in_sequence
read_locked_records log = elim log.current [
  | not_a_file ↦ err log_invalid
  | missing ↦ read_files log.archives >>= combine
  | is_file f ↦ read_files log.archives >>= λ cs. read_file f >>= λ c. combine (cs ++ c ∷ [])
]

abbrev pub or_incomplete : Result (List Event) → Bool → List Event × Bool
or_incomplete (ok records) gap = (records, not gap)
or_incomplete (err e) gap = ([], false)

-- `read_overlay_events`: the records, and whether they are complete
unfoldable pub read_overlay_events : EventLog → List Event × Bool
unfolding read_locked_records
read_overlay_events log = or_incomplete (read_locked_records log) log.gap

abbrev pub drop : ℕ → List Event → List Event
drop zero es = es
drop (suc n) [] = []
drop (suc n) (_ ∷ es) = drop n es

abbrev pub at_index : ℕ → List Event → Option Event
at_index n [] = none
at_index zero (e ∷ _) = some e
at_index (suc n) (_ ∷ es) = at_index n es

abbrev pub last_seq : ℕ → List Event → ℕ
last_seq n [] = n
last_seq n (e ∷ es) = last_seq e.seq es

-- The cursor stands at its own number.
abbrev pub cursor_fits : ℕ → List Event → Bool
cursor_fits zero records = true
cursor_fits (suc n) records = elim (at_index n records) [ none ↦ false | some e ↦ e.seq == suc n ]

abbrev pub page : ℕ → ℕ → List Event → Result (List Event × ℕ)
page after_seq limit records =
    if cursor_fits after_seq records
    then ok (take limit (drop after_seq records), last_seq 0 records)
    else err cursor_invalid

-- `read_events`
unfoldable pub read_events : ℕ → ℕ → EventLog → Result (List Event × ℕ)
unfolding read_locked_records
read_events after_seq limit log =
    if leb 1 limit && leb limit 100
    then (read_locked_records log >>= page after_seq limit)
    else err limit_invalid

-- `event_at`
unfoldable pub event_at : ℕ → EventLog → Result (Option Event)
unfolding read_locked_records
event_at zero log = ok none
event_at (suc n) log = read_locked_records log >>= λ records. ok (at_index n records)

-- A file appears somewhere in the directory's listing.
abbrev pub insert_at {ℓ} : {A : Type ℓ} → ℕ → A → List A → List A
insert_at zero a xs = a ∷ xs
insert_at (suc n) a [] = a ∷ []
insert_at (suc n) a (x ∷ xs) = x ∷ insert_at n a xs

-- The characters of an accepted text at which `str.splitlines` ends a line. The print of a record
-- leaves them as they are; it escapes the others.
abbrev pub is_separator : ℕ → Bool
is_separator c = c == 133 || c == 8232 || c == 8233

abbrev pub fact_texts : List (List ℕ × FactValue) → List ℕ
fact_texts [] = []
fact_texts ((key, text t) ∷ facts) = key ++ t ++ fact_texts facts
fact_texts ((key, _) ∷ facts) = key ++ fact_texts facts

abbrev pub separators : Event → List ℕ
separators e = select is_separator (e.actor ++ e.subject ++ e.family ++ fact_texts e.facts)

-- The lines that are read where one record was printed: it is cut at each separator, and a piece of
-- a text and what stands before or after it are no records.
abbrev pub cut : List ℕ → Event → List (Option Event)
cut [] e = some e ∷ []
cut (c ∷ cs) e = none ∷ none ∷ map (λ _. none) cs

abbrev pub lines_of : Event → List (Option Event)
lines_of e = cut (separators e) e

-- `append_text`, of the print of one record
abbrev pub append_text : Entry → Event → ℕ → Entry
append_text (is_file f) e n =
    is_file (record { size = f.size + n; ends_with_newline = true; lines = f.lines ++ lines_of e })
append_text _ e n = is_file (record { size = n; ends_with_newline = true; lines = lines_of e })

abbrev pub is_full : Entry → ℕ → Bool
is_full (is_file f) n = not (f.size == 0) && ltb max_event_log_bytes (f.size + n)
is_full _ n = false

abbrev pub has_archive : ℕ → List (ℕ × EventFile) → Bool
has_archive name archives = any (λ a. a.0 == name) archives

-- The full file becomes an archive that is named by its last number.
abbrev pub rotate : ℕ → ℕ → EventLog → Result EventLog
rotate position before log = elim log.current [
  | is_file f ↦ read_file f >>= λ records.
      if has_archive (last_seq before records) log.archives
      then err log_invalid
      else ok (record log {
        archives = insert_at position (last_seq before records, f) log.archives;
        current = missing;
      })
  | missing ↦ ok log
  | not_a_file ↦ ok log
]

abbrev pub written : Event → ℕ → Result EventLog → EventLog → Result Event × EventLog
written e n (ok log') log = (ok e, record log' { current = append_text log'.current e n })
written e n (err x) log = (err x, log)

module _ (alphabet : Alphabet) (encoded_size : Event → ℕ) where
  abbrev pub append_to : Append → ℕ → Result (List Event) → EventLog → Result Event × EventLog
  append_to a position (err x) log = (err x, log)
  append_to a position (ok records) log =
      let e = event_of (last_seq 0 records + 1) a in
      let n = encoded_size e in
      written e n
        (if is_full log.current n then rotate position (last_seq 0 records) log else ok log) log

  -- `append_event`; `position` is where an archive that it makes is listed.
  unfoldable pub append_event : Append → ℕ → EventLog → Result Event × EventLog
  unfolding append_accepted read_locked_records
  append_event a position log =
      if append_accepted alphabet a
      then append_to a position (read_locked_records log) log
      else (err write_invalid, log)

  unfoldable pub append_all : List (Append × ℕ) → EventLog → EventLog
  unfolding append_event
  append_all [] log = log
  append_all ((a, position) ∷ as') log = append_all as' (append_event a position log).1
