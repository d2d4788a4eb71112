-- ===== src/Journal/Sound.antt =====
-- The bindings between the files of an action of src/dyro/continuation/action_journal.py, and its
-- file writes.
use dyro_engineering_flow.Prelude.{
  false, ℕ, ◌≡◌, ◌≢◌, refl, sym, subst, true, ◌⊎◌, inl, inr, Option, none, some, arith, ==_iff,
  and_true, ◌∙◌,
}
use native.Mathlib.Decide.{ℕ_discrete}
use dyro_engineering_flow.Prelude.Dict.{lookup, create, lookup-create_self, lookup-create_ne}
use dyro_engineering_flow.Journal.Model.{ActionIntent, ActionStart, ActionReceipt, ActionRecord}
use dyro_engineering_flow.Journal.Store.{
  intent_file, is_torn, start_file, receipt_file, ok, Directory, ◌>>=◌, create_start,
  create_receipt, same_receipt, receipt_conflict,
}
use dyro_engineering_flow.Journal.Operations.{write_start}
use dyro_engineering_flow.Journal.Keeps.{
  reads_at, guard_at, cases_at, if_at, pure_state, raise_state,
}
use dyro_engineering_flow.Journal.Actions.{
  has_torn, start_bound, receipt_bound, receipt_allowed, read_record, publish_new, publish_receipt,
}

-- The files under the name `k` belong to one action; without a start only a cancelled receipt.
abbrev pub Consistent : ℕ → ActionIntent → Option ActionStart → Option ActionReceipt → Type 0
Consistent k i s r =
    (i.action_id ≡ k)
    × (start_bound i s ≡ true)
    × (receipt_bound i r ≡ true)
    × (receipt_allowed s r ≡ true)

-- Every start and every receipt has its intent, and they belong together.
pub record IsSound (d : Directory) : Type 0 where
  pub bound :
      (k : ℕ) (i : ActionIntent)
      → lookup k d.intents ≡ some i
      → Consistent k i (lookup k d.starts) (lookup k d.receipts)
  pub start_known : (k : ℕ) → lookup k d.intents ≡ none → lookup k d.starts ≡ none
  pub receipt_known : (k : ℕ) → lookup k d.intents ≡ none → lookup k d.receipts ≡ none

-- In a sound directory an action that has an intent and no torn file is read without an error.
pub read_record_sound :
    (k : ℕ) (d : Directory) {i : ActionIntent}
    → IsSound d
    → lookup k d.intents ≡ some i
    → has_torn k d ≡ false
    → read_record k d
      ≡ ok (record { intent = i; start = lookup k d.starts; receipt = lookup k d.receipts })
unfolding read_record
read_record_sound k d {i} s e t =
    let (named, a, b, c) = s.bound k i e in
    let ti : is_torn (intent_file k) d ≡ false = ground arith in
    let ts : is_torn (start_file k) d ≡ false = ground arith in
    let tr : is_torn (receipt_file k) d ≡ false = ground arith in rw (ti, e, ts, tr, a, b, c) refl

-- What a successful read says of the files.
pub read_record_lem :
    (k : ℕ) (d : Directory) {r : ActionRecord}
    → read_record k d ≡ ok r
    → (lookup k d.intents ≡ some r.intent)
      × (lookup k d.starts ≡ r.start)
      × (lookup k d.receipts ≡ r.receipt)
      × (has_torn k d ≡ false)
unfolding read_record
read_record_lem k d h = ground arith

-- Where a receipt is new, it binds to the intent, and nothing else changes.
abbrev pub Published : ActionReceipt → Directory → Directory → Type 0
Published receipt d e =
    (r : ActionRecord) × (read_record receipt.action_id d ≡ ok r)
    × (receipt.idempotency_key ≡ r.intent.idempotency_key)
    × (receipt.owner_generation ≡ r.intent.owner_generation)
    × (r.receipt ≡ none)
    × (e ≡ record d { receipts = create receipt.action_id receipt d.receipts })

publish_new_cases :
    (receipt : ActionReceipt) (r : ActionRecord) (d : Directory)
    → lookup receipt.action_id d.receipts ≡ none
    → is_torn (receipt_file receipt.action_id) d ≡ false
    → (publish_new receipt r d).1
      ≡ record d { receipts = create receipt.action_id receipt d.receipts }
unfolding ◌>>=◌ create_receipt
publish_new_cases receipt r d h t = rw (h, t, create_receipt) refl

pub publish_receipt_cases :
    (receipt : ActionReceipt) (d : Directory)
    → ((publish_receipt receipt d).1 ≡ d) ⊎ Published receipt d (publish_receipt receipt d).1
unfolding publish_receipt
publish_receipt_cases receipt d =
    let P = λ (e : Directory). (e ≡ d) ⊎ Published receipt d e in
    reads_at P d _ _ (inl refl) λ r e. guard_at P d _ _ _ (inl refl) λ b.
      cases_at P d r.receipt _ _
        (λ absent. inr (
          r,
          e,
          (==_iff _ _).0 (and_true b).0,
          (==_iff _ _).0 (and_true b).1,
          absent,
          let (_, _, found, whole) = read_record_lem _ d e in
              publish_new_cases receipt r d (found ∙ absent) (ground arith),
        ))
        (λ old _.
          if_at P d (same_receipt old receipt) _ _ (λ _. inl (pure_state r d))
            (λ _. inl (raise_state ActionRecord receipt_conflict d)))

-- A property of every name holds if it holds of `k` and of the names other than `k`.
at_each {ℓ} : (P : ℕ → Type ℓ) (k : ℕ) → P k → ((j : ℕ) → k ≢ j → P j) → (j : ℕ) → P j
at_each P k self other j = elim (ℕ_discrete k j) [ yes e ↦ subst P e self | no ne ↦ other j ne ]

module _ (d : Directory) (s : IsSound d) (k : ℕ) where
  -- A new intent, under its own name.
  pub intent-IsSound :
      (v : ActionIntent)
      → v.action_id ≡ k
      → lookup k d.intents ≡ none
      → IsSound (record d { intents = create k v d.intents })
  intent-IsSound v named absent =
      let self = lookup-create_self k v d.intents absent in
      let other = λ (j : ℕ) (ne : k ≢ j). lookup-create_ne j k v d.intents ne in
      record {
        bound =
            at_each
              (λ j.
                (i : ActionIntent)
                → lookup j (create k v d.intents) ≡ some i
                → Consistent j i (lookup j d.starts) (lookup j d.receipts))
              k
              (λ i h.
                rw (s.start_known k absent, s.receipt_known k absent) (cc self, refl, refl, refl))
              (λ j ne i h. s.bound j i (sym (other j ne) ∙ h));
        start_known =
            at_each (λ j. lookup j (create k v d.intents) ≡ none → lookup j d.starts ≡ none) k
              (λ h. cc self) (λ j ne h. s.start_known j (sym (other j ne) ∙ h));
        receipt_known =
            at_each (λ j. lookup j (create k v d.intents) ≡ none → lookup j d.receipts ≡ none) k
              (λ h. cc self) (λ j ne h. s.receipt_known j (sym (other j ne) ∙ h));
      }

  -- A new start of a known action.
  pub start-IsSound :
      (v : ActionStart) {i : ActionIntent}
      → lookup k d.intents ≡ some i
      → start_bound i (some v) ≡ true
      → lookup k d.starts ≡ none
      → IsSound (record d { starts = create k v d.starts })
  start-IsSound v {i} known binds absent =
      let self = lookup-create_self k v d.starts absent in
      let other = λ (j : ℕ) (ne : k ≢ j). lookup-create_ne j k v d.starts ne in
      let old = s.bound k i known in
      record {
        bound =
            at_each
              (λ j.
                (i : ActionIntent)
                → lookup j d.intents ≡ some i
                → Consistent j i (lookup j (create k v d.starts)) (lookup j d.receipts))
              k (λ i' h. let same : i' ≡ i = cc in rw (self, same) (old.0, binds, old.2, refl))
              (λ j ne i' h. rw (other j ne) (s.bound j i' h));
        start_known =
            at_each (λ j. lookup j d.intents ≡ none → lookup j (create k v d.starts) ≡ none) k
              (λ h. cc known) (λ j ne h. other j ne ∙ s.start_known j h);
        receipt_known = s.receipt_known;
      }

  -- A new receipt of a known action, which without a start is a cancellation.
  pub receipt-IsSound :
      (v : ActionReceipt) {i : ActionIntent}
      → lookup k d.intents ≡ some i
      → receipt_bound i (some v) ≡ true
      → receipt_allowed (lookup k d.starts) (some v) ≡ true
      → lookup k d.receipts ≡ none
      → IsSound (record d { receipts = create k v d.receipts })
  receipt-IsSound v {i} known binds allowed absent =
      let self = lookup-create_self k v d.receipts absent in
      let other = λ (j : ℕ) (ne : k ≢ j). lookup-create_ne j k v d.receipts ne in
      let old = s.bound k i known in
      record {
        bound =
            at_each
              (λ j.
                (i : ActionIntent)
                → lookup j d.intents ≡ some i
                → Consistent j i (lookup j d.starts) (lookup j (create k v d.receipts)))
              k (λ i' h. let same : i' ≡ i = cc in rw (self, same) (old.0, old.1, binds, allowed))
              (λ j ne i' h. rw (other j ne) (s.bound j i' h));
        start_known = s.start_known;
        receipt_known =
            at_each (λ j. lookup j d.intents ≡ none → lookup j (create k v d.receipts) ≡ none) k
              (λ h. cc known) (λ j ne h. other j ne ∙ s.receipt_known j h);
      }

pub start_whole : (k : ℕ) (d : Directory) → has_torn k d ≡ false → is_torn (start_file k) d ≡ false
start_whole k d h = ground arith

pub write_start_new :
    (k : ℕ) (v : ActionStart) (r : ActionRecord) (d : Directory)
    → lookup k d.starts ≡ none
    → is_torn (start_file k) d ≡ false
    → (write_start k v r d).1 ≡ record d { starts = create k v d.starts }
unfolding ◌>>=◌ create_start
write_start_new k v r d h t = rw (h, t, create_start) refl
