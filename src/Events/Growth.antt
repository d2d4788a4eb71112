-- ===== src/Events/Growth.antt =====
-- How an append to the log of src/dyro/events.py and a rotation keep what the files hold.
use dyro_engineering_flow.Prelude.{
  append_assoc, append_nil, ℕ, ◌+◌, ◌≤◌, ◌<◌, ◌≡◌, refl, ap, sym, ◌∙◌, true, some, List, [], ◌∷◌,
  ◌++◌, arith, length, length-append, map, All-weaken,
}
use dyro_engineering_flow.Events.Model.{Event}
use dyro_engineering_flow.Events.Log.{
  lines_of, EventFile, missing, is_file, first_seq, is_chunk, insert_at, append_text,
}
use dyro_engineering_flow.Events.Chunks.{IsNumbered-append}
use dyro_engineering_flow.Events.Appended.{
  All-insert_at, read_files-insert_at, first-numbered, chunk-positive, joined-insert_at,
  read_file-current, Inv,
}

map-snoc : (es : List Event) (e : Event) → map some es ++ some e ∷ [] ≡ map some (es ++ e ∷ [])
map-snoc [] e = refl
map-snoc (x ∷ xs) e = ap (λ us. some x ∷ us) (map-snoc xs e)

is_chunk-snoc : (es : List Event) (e : Event) → is_chunk (es ++ e ∷ []) ≡ true
is_chunk-snoc [] e = refl
is_chunk-snoc (x ∷ xs) e = refl

-- The record that is written next.
pub record IsNext (events : List Event) (e : Event) (n : ℕ) : Type 0 where
  pub seq : e.seq ≡ 1 + length events
  pub id : e.id ≡ 1 + length events
  pub positive : 0 < n
  pub small : n ≤ 2097152
  pub one_line : lines_of e ≡ some e ∷ []

module _ (archives : List (ℕ × EventFile)) (events : List Event) where
  pub put-missing :
      (e : Event) (n : ℕ)
      → IsNext events e n
      → Inv archives missing events
      → Inv archives (append_text missing e n) (events ++ e ∷ [])
  put-missing e n x i =
      let all : events ≡ i.old = i.whole ∙ (ap (λ r. i.old ++ r) i.holds ∙ append_nil i.old) in
      record {
        chunks = i.chunks;
        old = i.old;
        recent = e ∷ [];
        files = i.files;
        full = i.full;
        earlier = i.earlier;
        sorted = i.sorted;
        names = i.names;
        numbered = i.numbered;
        continued = (x.seq ∙ ap (λ es. 1 + length es) all, x.id ∙ ap (λ es. 1 + length es) all, tt);
        holds = (
          record { size = x.positive; small = x.small; newline = refl; lines = x.one_line },
          refl,
        );
        whole = ap (λ es. es ++ e ∷ []) all;
      }

  pub put-file :
      (f : EventFile) (e : Event) (n : ℕ)
      → IsNext events e n
      → f.size + n ≤ 2097152
      → Inv archives (is_file f) events
      → Inv archives (append_text (is_file f) e n) (events ++ e ∷ [])
  put-file f e n x room i =
      let count : 1 + length events ≡ 1 + length i.old + length i.recent =
        omega (arith, ap length i.whole, length-append i.old i.recent) in
      let h = i.holds.0 in
      record {
        chunks = i.chunks;
        old = i.old;
        recent = i.recent ++ e ∷ [];
        files = i.files;
        full = i.full;
        earlier = i.earlier;
        sorted = i.sorted;
        names = i.names;
        numbered = i.numbered;
        continued =
            IsNumbered-append (1 + length i.old) i.recent (e ∷ []) i.continued
              (x.seq ∙ count, x.id ∙ count, tt);
        holds = (
          record {
            size = omega (arith, x.positive);
            small = room;
            newline = refl;
            lines =
                ap (λ ls. f.lines ++ ls) x.one_line
                ∙ ap (λ ls. ls ++ some e ∷ []) h.lines
                ∙ map-snoc i.recent e;
          },
          is_chunk-snoc i.recent e,
        );
        whole = ap (λ es. es ++ e ∷ []) i.whole ∙ append_assoc i.old i.recent (e ∷ []);
      }

  pub rotated-Inv :
      (position : ℕ) (f : EventFile)
      → Inv archives (is_file f) events
      → Inv (insert_at position (length events, f) archives) missing events
  rotated-Inv position f i =
      let count : length events ≡ length i.old + length i.recent =
        ap length i.whole ∙ length-append i.old i.recent in
      let grown : length (i.old ++ i.recent) ≡ length i.old + length i.recent =
        length-append i.old i.recent in
      record {
        chunks = insert_at position i.recent i.chunks;
        old = i.old ++ i.recent;
        recent = [];
        files =
            read_files-insert_at position (length events) f archives i.recent i.chunks
              (read_file-current (1 + length i.old) f i.recent (omega arith) i.continued i.holds)
              i.files;
        full = All-insert_at (λ c. is_chunk c ≡ true) position i.recent i.chunks i.holds.1 i.full;
        earlier =
            All-insert_at (λ c. first_seq c < 1 + length (i.old ++ i.recent)) position i.recent
              i.chunks
              (omega (
                arith,
                first-numbered (1 + length i.old) i.recent i.holds.1 i.continued,
                chunk-positive i.recent i.holds.1,
                grown,
              ))
              (All-weaken (λ c. first_seq c < 1 + length i.old)
                (λ c. first_seq c < 1 + length (i.old ++ i.recent)) i.chunks
                (λ c h. omega (arith, h, grown)) i.earlier);
        sorted =
            joined-insert_at position i.recent i.chunks i.old i.holds.1 i.continued i.earlier
              i.sorted;
        names =
            All-insert_at (λ b. b.0 < 1 + length (i.old ++ i.recent)) position (length events, f)
              archives (omega (arith, count, grown))
              (All-weaken (λ b. b.0 < 1 + length i.old) (λ b. b.0 < 1 + length (i.old ++ i.recent))
                archives (λ b h. omega (arith, h, grown)) i.names);
        numbered = IsNumbered-append 1 i.old i.recent i.numbered i.continued;
        continued = tt;
        holds = refl;
        whole = i.whole ∙ sym (append_nil (i.old ++ i.recent));
      }
