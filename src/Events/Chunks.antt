-- ===== src/Events/Chunks.antt =====
-- The files of the log of src/dyro/events.py: chunks of consecutive records that are read back, in
-- whatever order the directory lists them.
use dyro_engineering_flow.Prelude.{
  subst, ℕ, suc, zero, ◌+◌, ◌≤◌, ◌<◌, ◌≡◌, refl, ap, ◌∙◌, true, none, some, List, [], ◌∷◌, ◌++◌,
  arith, leb, ==_refl, length, map, All,
}
use dyro_engineering_flow.Prelude.Sort.{All-sort_by, sort_by, insert_by}
use dyro_engineering_flow.Events.Model.{ok, Event}
use dyro_engineering_flow.Events.Log.{
  EventFile, decode_event, read_lines, read_file, first_seq, chunk_le, in_sequence, insert_at,
  last_seq,
}

-- The records are numbered from `n` on.
abbrev pub IsNumbered : ℕ → List Event → Type 0
IsNumbered n [] = Unit
IsNumbered n (e ∷ es) = (e.seq ≡ n) × (e.id ≡ n) × IsNumbered (n + 1) es

pub IsNumbered-append :
    (n : ℕ) (es fs : List Event)
    → IsNumbered n es
    → IsNumbered (n + length es) fs
    → IsNumbered n (es ++ fs)
IsNumbered-append n [] fs h k = subst (λ m. IsNumbered m fs) (omega arith) k
IsNumbered-append n (e ∷ es) fs (s, i, h) k =
    (s, i, IsNumbered-append (n + 1) es fs h (subst (λ m. IsNumbered m fs) (omega arith) k))

pub in_sequence-IsNumbered : (n : ℕ) (es : List Event) → IsNumbered n es → in_sequence n es ≡ true
unfolding in_sequence
in_sequence-IsNumbered n [] h = refl
in_sequence-IsNumbered n (e ∷ es) (s, i, h) =
    rw (s, ==_refl n) (in_sequence-IsNumbered (n + 1) es h)

pub last_seq-IsNumbered :
    (n m : ℕ) (es : List Event) → IsNumbered (n + 1) es → m ≡ n → last_seq m es ≡ n + length es
last_seq-IsNumbered n m [] h k = omega (arith, k)
last_seq-IsNumbered n m (e ∷ es) (s, i, h) k =
    omega (arith, last_seq-IsNumbered (n + 1) e.seq es h s)

decode-numbered : (n : ℕ) (e : Event) → 1 ≤ n → e.seq ≡ n → e.id ≡ n → decode_event (some e) ≡ ok e
decode-numbered n e p s i = ground arith

read_lines-IsNumbered :
    (n : ℕ) (es : List Event) → 1 ≤ n → IsNumbered n es → read_lines (some n) (map some es) ≡ ok es
unfolding read_lines
read_lines-IsNumbered n [] p h = refl
read_lines-IsNumbered n (e ∷ es) p (s, i, h) =
    let rest = read_lines-IsNumbered (n + 1) es (omega (arith, p)) h in
    rw (decode-numbered n e p s i, s, ==_refl n, rest) refl

read_lines-first :
    (n : ℕ) (e : Event) (es : List Event)
    → 1 ≤ n
    → IsNumbered n (e ∷ es)
    → read_lines none (map some (e ∷ es)) ≡ ok (e ∷ es)
unfolding read_lines
read_lines-first n e es p (s, i, h) =
    let rest = read_lines-IsNumbered (n + 1) es (omega (arith, p)) h in
    rw (decode-numbered n e p s i, s, first, rest) refl
  where
    first : leb 1 n ≡ true
    first = ground arith

-- A file that was written record by record.
pub record Holds (f : EventFile) (es : List Event) : Type 0 where
  pub size : 0 < f.size
  pub small : f.size ≤ 2097152
  pub newline : f.ends_with_newline ≡ true
  pub lines : f.lines ≡ map some es

pub read_file-Holds :
    (n : ℕ) (f : EventFile) (e : Event) (es : List Event)
    → 1 ≤ n
    → IsNumbered n (e ∷ es)
    → Holds f (e ∷ es)
    → read_file f ≡ ok (e ∷ es)
unfolding read_file
read_file-Holds n f e es p h k =
    rw (k.newline, k.lines) (ground (arith, read_lines-first n e es p h, k.size, k.small))

-- A chunk that comes after all others is read last, wherever it is listed.
insert_by-last :
    (y : List Event) (zs : List (List Event))
    → All (λ x. first_seq x < first_seq y) zs
    → insert_by chunk_le y zs ≡ zs ++ y ∷ []
unfolding insert_by
insert_by-last y [] h = refl
insert_by-last y (z ∷ zs) (h, hs) = ground (arith, insert_by-last y zs hs, h)

insert_by-before :
    (x y : List Event) (zs : List (List Event))
    → first_seq x < first_seq y
    → insert_by chunk_le x (zs ++ y ∷ []) ≡ insert_by chunk_le x zs ++ y ∷ []
unfolding insert_by
insert_by-before x y [] h = ground arith
insert_by-before x y (z ∷ zs) h = ground (arith, insert_by-before x y zs h)

pub sort_by-insert_at :
    (position : ℕ) (y : List Event) (xs : List (List Event))
    → All (λ x. first_seq x < first_seq y) xs
    → sort_by chunk_le (insert_at position y xs) ≡ sort_by chunk_le xs ++ y ∷ []
unfolding sort_by
sort_by-insert_at zero y xs h = insert_by-last y (sort_by chunk_le xs) (All-sort_by chunk_le _ xs h)
sort_by-insert_at (suc position) y [] h = refl
sort_by-insert_at (suc position) y (x ∷ xs) (h, hs) =
    ap (insert_by chunk_le x) (sort_by-insert_at position y xs hs)
    ∙ insert_by-before x y (sort_by chunk_le xs) h
