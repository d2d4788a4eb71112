-- ===== src/Events/Reads.antt =====
-- Histories of `append_event` of src/dyro/events.py, and what is read after them.
use dyro_engineering_flow.Prelude.{
  All, append_assoc, append_nil, take, some, zero, leb, ◌&&◌, ℕ, suc, ◌+◌, ◌≤◌, ◌<◌, ◌≡◌, refl, ap,
  sym, ◌∙◌, Bool, true, inl, inr, List, [], ◌∷◌, ◌++◌, arith, length, length-append, select, map,
  Bool-cases,
}
use dyro_engineering_flow.Events.Model.{ok, Event, Append, Alphabet, append_accepted, event_of}
use dyro_engineering_flow.Events.Log.{
  separators, cut, at_index, last_seq, cursor_fits, read_events, drop, EventFile, Entry, missing,
  EventLog, read_locked_records, append_event, append_all,
}
use dyro_engineering_flow.Events.Appended.{Inv, start-Inv, read-Inv}
use dyro_engineering_flow.Events.Growth.{IsNext}
use dyro_engineering_flow.Events.Calls.{append_to-Appends}

-- The records of calls that are numbered from `n` on.
abbrev pub number : ℕ → List Append → List Event
number n [] = []
number n (a ∷ as') = event_of n a ∷ number (n + 1) as'

abbrev pub log_of : List (ℕ × EventFile) → Entry → Bool → EventLog
log_of archives current gap = record { archives = archives; current = current; gap = gap }

-- The texts of the call have no character that ends a line for the reader.
abbrev pub IsOneLine : Append → Type 0
IsOneLine a = separators (event_of 1 a) ≡ []

abbrev pub accepted : Alphabet → List (Append × ℕ) → List Append
accepted alphabet calls = select (append_accepted alphabet) (map (λ c. c.0) calls)

module _ (alphabet : Alphabet) (encoded_size : Event → ℕ) where
  append_all-from :
      (calls : List (Append × ℕ)) (archives : List (ℕ × EventFile)) (current : Entry) (gap : Bool)
      (events : List Event)
      → ((seq : ℕ) (a : Append)
          → append_accepted alphabet a ≡ true
          → (0 < encoded_size (event_of seq a)) × (encoded_size (event_of seq a) ≤ 2097152))
      → All IsOneLine (accepted alphabet calls)
      → Inv archives current events
      → read_locked_records (append_all alphabet encoded_size calls (log_of archives current gap))
        ≡ ok (events ++ number (length events + 1) (accepted alphabet calls))
  unfolding append_all append_event
  append_all-from [] archives current gap events fits clean i =
      read-Inv archives current gap events i ∙ ap ok (sym (append_nil events))
  append_all-from ((a, position) ∷ calls) archives current gap events fits clean i =
      elim (Bool-cases (append_accepted alphabet a)) [
        | inr refused ↦
            rw (refused, append_event, append_all)
              (append_all-from calls archives current gap events fits (rw refused at clean) i)
        | inl valid ↦
            let e = event_of (length events + 1) a in
            let (positive, small) = fits (length events + 1) a valid in
            let (whole, clean') : All IsOneLine (a ∷ accepted alphabet calls) = rw valid at clean in
            let next : IsNext events e (encoded_size e) = record {
              seq = omega arith;
              id = omega arith;
              positive = positive;
              small = small;
              one_line = ap (λ cs. cut cs e) whole;
            } in
            let done =
              append_to-Appends alphabet encoded_size a position archives current gap events next
                i in
            let more =
              append_all-from calls done.archives done.current gap (events ++ e ∷ []) fits clean'
                done.keeps in
            let grown : length (events ++ e ∷ []) + 1 ≡ length events + 1 + 1 =
              omega (arith, length-append events (e ∷ [])) in
            let xs = accepted alphabet calls in
            let shift : (events ++ e ∷ []) ++ number (length (events ++ e ∷ []) + 1) xs
                ≡ events ++ number (length events + 1) (a ∷ xs) =
              ap (λ m. (events ++ e ∷ []) ++ number m xs) grown
              ∙ append_assoc events (e ∷ []) (number (length events + 1 + 1) xs) in
            rw (valid, read-Inv archives current gap events i, done.answers) (more ∙ ap ok shift)
      ]

  -- Whatever is appended to a new log in texts that have no line separator (U+0085, U+2028 and
  -- U+2029), the log is read without an error, its records are those of
  -- the accepted calls in their order, numbered from 1, and this does not depend on where the log
  -- was rotated or in which order the directory lists the archives; every record is printed as a
  -- line of 1 to 2097152 bytes.
  pub append_all-reads :
      (calls : List (Append × ℕ)) (gap : Bool)
      → ((seq : ℕ) (a : Append)
          → append_accepted alphabet a ≡ true
          → (0 < encoded_size (event_of seq a)) × (encoded_size (event_of seq a) ≤ 2097152))
      → All IsOneLine (accepted alphabet calls)
      → read_locked_records (append_all alphabet encoded_size calls (log_of [] missing gap))
        ≡ ok (number 1 (accepted alphabet calls))
  append_all-reads calls gap fits clean =
      append_all-from calls [] missing gap [] fits clean start-Inv

cursor_fits-number :
    (k n : ℕ) (xs : List Append)
    → k < length xs
    → (a : Append) × (at_index k (number n xs) ≡ some (event_of (n + k) a))
cursor_fits-number k n [] h = let never : ⊥ = omega (arith, h) in elim never [ ]
cursor_fits-number zero n (a ∷ xs) h = (a, ap (λ m. some (event_of m a)) (omega arith))
cursor_fits-number (suc k) n (a ∷ xs) h =
    let (b, e) = cursor_fits-number k (n + 1) xs (omega (arith, h)) in
    (b, e ∙ ap (λ m. some (event_of m b)) (omega arith))

length-number : (n : ℕ) (xs : List Append) → length (number n xs) ≡ length xs
length-number n [] = refl
length-number n (a ∷ xs) = ap suc (length-number (n + 1) xs)

last_seq-number :
    (n m : ℕ) (xs : List Append) → m + 1 ≡ n → last_seq m (number n xs) ≡ m + length xs
last_seq-number n m [] e = omega arith
last_seq-number n m (a ∷ xs) e = omega (arith, last_seq-number (n + 1) n xs refl, e)

cursor_fits-reads :
    (after_seq : ℕ) (xs : List Append)
    → after_seq ≤ length xs
    → cursor_fits after_seq (number 1 xs) ≡ true
cursor_fits-reads zero xs h = refl
cursor_fits-reads (suc n) xs h =
    let (a, e) = cursor_fits-number n 1 xs (omega (arith, h)) in rw (e, cursor_fits) (ground arith)

module _ (alphabet : Alphabet) (encoded_size : Event → ℕ) where
  -- After any appends to a new log in texts that have no line separator (U+0085, U+2028 and U+2029),
  -- a page is read from every cursor up to the last number: it has the
  -- records after the cursor, no more than the limit, and the number of the last record of all;
  -- every record is printed as a line of 1 to 2097152 bytes.
  pub read_events-pages :
      (calls : List (Append × ℕ)) (gap : Bool) (after_seq limit : ℕ)
      → ((seq : ℕ) (a : Append)
          → append_accepted alphabet a ≡ true
          → (0 < encoded_size (event_of seq a)) × (encoded_size (event_of seq a) ≤ 2097152))
      → All IsOneLine (accepted alphabet calls)
      → after_seq ≤ length (accepted alphabet calls)
      → 1 ≤ limit
      → limit ≤ 100
      → read_events after_seq limit (append_all alphabet encoded_size calls (log_of [] missing gap))
        ≡ ok (
          take limit (drop after_seq (number 1 (accepted alphabet calls))),
          length (accepted alphabet calls),
        )
  unfolding read_events
  read_events-pages calls gap after_seq limit fits clean h low high =
      let xs = accepted alphabet calls in
      let last : last_seq 0 (number 1 xs) ≡ length xs =
        omega (arith, last_seq-number 1 0 xs refl) in
      rw
        (
          allowed,
          append_all-reads alphabet encoded_size calls gap fits clean,
          cursor_fits-reads after_seq xs h,
          last,
        )
        refl
    where
      allowed : (leb 1 limit && leb limit 100) ≡ true
      allowed = ground arith
