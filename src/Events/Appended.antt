-- ===== src/Events/Appended.antt =====
-- What a log of src/dyro/events.py holds after any appends: the records in their order, wherever
-- the log was rotated.
use dyro_engineering_flow.Prelude.{
  select-all, append_assoc, append_nil, ◌⊎◌, ℕ, suc, zero, ◌+◌, ◌≤◌, ◌<◌, ◌≡◌, refl, ap, sym, ◌∙◌,
  Bool, true, false, inl, inr, List, [], ◌∷◌, ◌++◌, arith, length, All, All-append,
}
use dyro_engineering_flow.Prelude.Sort.{sort_by}
use dyro_engineering_flow.Events.Model.{EventLogError, Result, ok, err, Event}
use dyro_engineering_flow.Events.Log.{
  EventFile, Entry, missing, not_a_file, is_file, read_file, read_files, read_locked_records,
  first_seq, is_chunk, chunk_le, joined, insert_at, has_archive,
}
use dyro_engineering_flow.Events.Chunks.{
  IsNumbered, IsNumbered-append, in_sequence-IsNumbered, Holds, read_file-Holds, sort_by-insert_at,
}

module _ {A : Type 0} where
  pub insert_at-length : (y : A) (xs : List A) → insert_at (length xs) y xs ≡ xs ++ y ∷ []
  insert_at-length y [] = refl
  insert_at-length y (x ∷ xs) = ap (λ zs. x ∷ zs) (insert_at-length y xs)

  pub All-insert_at :
      (P : A → Type 0) (position : ℕ) (y : A) (xs : List A)
      → P y
      → All P xs
      → All P (insert_at position y xs)
  All-insert_at P zero y xs h hs = (h, hs)
  All-insert_at P (suc n) y [] h hs = (h, tt)
  All-insert_at P (suc n) y (x ∷ xs) h (k, ks) = (k, All-insert_at P n y xs h ks)

joined-snoc : (cs : List (List Event)) (c : List Event) → joined (cs ++ c ∷ []) ≡ joined cs ++ c
joined-snoc [] c = append_nil c
joined-snoc (x ∷ xs) c = ap (λ us. x ++ us) (joined-snoc xs c) ∙ sym (append_assoc x (joined xs) c)

Result-cases :
    {A : Type 0} (r : Result A) → ((a : A) × (r ≡ ok a)) ⊎ ((x : EventLogError) × (r ≡ err x))
Result-cases (ok a) = inl (a, refl)
Result-cases (err x) = inr (x, refl)

-- A file that is listed among the archives.
pub read_files-insert_at :
    (position name : ℕ) (f : EventFile) (as' : List (ℕ × EventFile)) (c : List Event)
    (cs : List (List Event))
    → read_file f ≡ ok c
    → read_files as' ≡ ok cs
    → read_files (insert_at position (name, f) as') ≡ ok (insert_at position c cs)
unfolding read_files
read_files-insert_at zero name f as' c cs e h = rw (e, h) refl
read_files-insert_at (suc n) name f [] c cs e h =
    let empty : cs ≡ [] = ground arith in rw (e, empty) refl
read_files-insert_at (suc n) name f ((m, g) ∷ as') c cs e h = elim (Result-cases (read_file g)) [
  | inr (x, k) ↦ let never : err x ≡ ok cs = rw k at h in ground arith
  | inl (c', k) ↦ elim (Result-cases (read_files as')) [
    | inr (x, k') ↦ let never : err x ≡ ok cs = rw (k, k') at h in ground arith
    | inl (cs', k') ↦
        let same : ok (c' ∷ cs') ≡ ok cs = rw (k, k') at h in
        let both : cs ≡ c' ∷ cs' = ground arith in
        rw (k, both, read_files-insert_at n name f as' c cs' e k') refl
  ]
]

pub has_archive-new :
    (n : ℕ) (as' : List (ℕ × EventFile)) → All (λ a. a.0 < n) as' → has_archive n as' ≡ false
has_archive-new n [] h = refl
has_archive-new n (a ∷ as') (h, hs) = ground (arith, has_archive-new n as' hs)

-- What the current file holds.
abbrev pub HasCurrent : Entry → List Event → Type 0
HasCurrent missing es = es ≡ []
HasCurrent not_a_file es = ⊥
HasCurrent (is_file f) es = Holds f es × (is_chunk es ≡ true)

-- The archives hold the records before those of the current file.
pub record Inv (archives : List (ℕ × EventFile)) (current : Entry) (events : List Event)
    : Type 0 where
  pub chunks : List (List Event)
  pub old : List Event
  pub recent : List Event
  pub files : read_files archives ≡ ok chunks
  pub full : All (λ c. is_chunk c ≡ true) chunks
  pub earlier : All (λ c. first_seq c < 1 + length old) chunks
  pub sorted : joined (sort_by chunk_le chunks) ≡ old
  pub names : All (λ a. a.0 < 1 + length old) archives
  pub numbered : IsNumbered 1 old
  pub continued : IsNumbered (1 + length old) recent
  pub holds : HasCurrent current recent
  pub whole : events ≡ old ++ recent

pub start-Inv : Inv [] missing []
unfolding read_files sort_by
start-Inv = record {
  chunks = [];
  old = [];
  recent = [];
  files = refl;
  full = tt;
  earlier = tt;
  sorted = refl;
  names = tt;
  numbered = tt;
  continued = tt;
  holds = refl;
  whole = refl;
}

pub first-numbered :
    (n : ℕ) (es : List Event) → is_chunk es ≡ true → IsNumbered n es → first_seq es ≡ n
first-numbered n [] c h = ground arith
first-numbered n (e ∷ es) c (s, i, h) = s

pub chunk-positive : (es : List Event) → is_chunk es ≡ true → 1 ≤ length es
chunk-positive [] c = ground arith
chunk-positive (e ∷ es) c = omega arith

-- A chunk after all others is joined after them, wherever it is listed.
pub joined-insert_at :
    (position : ℕ) (c : List Event) (chunks : List (List Event)) (old : List Event)
    → is_chunk c ≡ true
    → IsNumbered (1 + length old) c
    → All (λ x. first_seq x < 1 + length old) chunks
    → joined (sort_by chunk_le chunks) ≡ old
    → joined (sort_by chunk_le (insert_at position c chunks)) ≡ old ++ c
joined-insert_at position c chunks old n k h e =
    ap joined (sort_by-insert_at position c chunks (rw (first-numbered (1 + length old) c n k) h))
    ∙ (joined-snoc (sort_by chunk_le chunks) c ∙ ap (λ us. us ++ c) e)

pub read_file-current :
    (n : ℕ) (f : EventFile) (es : List Event)
    → 1 ≤ n
    → IsNumbered n es
    → HasCurrent (is_file f) es
    → read_file f ≡ ok es
read_file-current n f [] p k (h, c) = ground arith
read_file-current n f (e ∷ es) p k (h, c) = read_file-Holds n f e es p k h

pub read-Inv :
    (archives : List (ℕ × EventFile)) (current : Entry) (gap : Bool) (events : List Event)
    → Inv archives current events
    → read_locked_records (record { archives = archives; current = current; gap = gap }) ≡ ok events
unfolding read_locked_records
read-Inv archives not_a_file gap events i = elim i.holds [ ]
read-Inv archives missing gap events i =
    let numbered = in_sequence-IsNumbered 1 i.old i.numbered in
    let all : events ≡ i.old = i.whole ∙ (ap (λ r. i.old ++ r) i.holds ∙ append_nil i.old) in
    rw (i.files, select-all is_chunk i.chunks i.full, i.sorted, numbered) (ap ok (sym all))
read-Inv archives (is_file f) gap events i =
    let numbered =
      in_sequence-IsNumbered 1 (i.old ++ i.recent)
        (IsNumbered-append 1 i.old i.recent i.numbered i.continued) in
    let c = i.recent in
    let full = All-append (λ x. is_chunk x ≡ true) i.chunks (c ∷ []) i.full (i.holds.1, tt) in
    let order : joined (sort_by chunk_le (i.chunks ++ c ∷ [])) ≡ i.old ++ c =
      ap (λ cs. joined (sort_by chunk_le cs)) (sym (insert_at-length c i.chunks))
      ∙ joined-insert_at (length i.chunks) c i.chunks i.old i.holds.1 i.continued i.earlier
          i.sorted in
    let file = read_file-current (1 + length i.old) f c (omega arith) i.continued i.holds in
    rw (i.files, file, select-all is_chunk (i.chunks ++ c ∷ []) full, order, numbered)
      (ap ok (sym i.whole))
