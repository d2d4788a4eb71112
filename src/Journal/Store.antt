-- ===== src/Journal/Store.antt =====
-- The directory of one Objective as the journal keeps it, and the operations on its files: each
-- file holds the record that was written to it, or was created by a call that did not come to write
-- it. A failed call raises and keeps what was written.
use dyro_engineering_flow.Prelude.{
  any, ℕ, Bool, true, false, ◌&&◌, Option, none, some, List, [], ◌∷◌, ◌==◌, if◌then◌else◌,
}
use dyro_engineering_flow.Prelude.Dict.{Dict, lookup, create}
use dyro_engineering_flow.Journal.Model.{
  ActionIntent, ActionStart, ActionReceipt, same_status, OwnerLease,
}

-- The `raise` statements of the two modules, by their message.
pub data JournalError : Type 0 where
  file_not_found damaged orphaned binding_mismatch unstarted_not_cancelled : JournalError
  intent_rebound receipt_conflict start_conflict already_terminal : JournalError
  plan_invalid too_many_reserved plan_conflict plan_started summary_invalid : JournalError
  lease_missing lease_inactive clock_rollback generation_fenced token_mismatch : JournalError
  intent_fenced lease_held objective_mismatch bad_argument : JournalError
  pending_invalid pending_exists takeover_inconsistent grant_required : JournalError
  objective_inactive objective_observes intent_unbound subject_outside : JournalError
  operation_unauthorized actions_unresolved operation_unsupported : JournalError
  reservation_differs budget_refused : JournalError

pub data Result (A : Type 0) : Type 0 where
  ok : A → Result A
  err : JournalError → Result A

-- `scheduler-owner-pending.json`: the new lease, the one before, and the receipts to write.
pub record TakeoverPending : Type 0 where
  pub lease : OwnerLease
  pub previous_lease : Option OwnerLease
  pub action_cancellation : List ActionReceipt

-- The files of an action.
pub data ActionFile : Type 0 where
  intent_file start_file receipt_file : ℕ → ActionFile

abbrev pub same_file : ActionFile → ActionFile → Bool
same_file (intent_file a) (intent_file b) = a == b
same_file (start_file a) (start_file b) = a == b
same_file (receipt_file a) (receipt_file b) = a == b
same_file _ _ = false

-- `torn` are the files that were created and hold no whole record: a crash came between.
pub record Directory : Type 0 where
  pub lease : Option OwnerLease
  pub pending : Option TakeoverPending
  pub intents : Dict ActionIntent
  pub starts : Dict ActionStart
  pub receipts : Dict ActionReceipt
  pub torn : List ActionFile

abbrev pub is_torn : ActionFile → Directory → Bool
is_torn f d = any (same_file f) d.torn

abbrev pub M : Type 0 → Type 0
M A = Directory → Result A × Directory

module _ {A : Type 0} where
  unfoldable pub pure : A → M A
  pure a d = (ok a, d)

  unfoldable pub raise : JournalError → M A
  raise e d = (err e, d)

  -- A read that may fail.
  unfoldable pub reads : (Directory → Result A) → M A
  reads f d = (f d, d)

module _ {A B : Type 0} where
  abbrev pub continue : Result A → (A → M B) → M B
  continue (ok a) f d = f a d
  continue (err e) f d = (err e, d)

  infixl 5 ◌>>=◌ ◌>>◌
  -- Opening this opens `pure`, `raise` and `reads` too.
  unfoldable pub ◌>>=◌ : M A → (A → M B) → M B
  unfolding pure raise reads
  ◌>>=◌ m f d = let (r, d') = m d in continue r f d'

  abbrev pub ◌>>◌ : M A → M B → M B
  m >> k = m >>= λ _. k

  -- A split on a value that may be absent.
  unfoldable pub cases : Option A → M B → (A → M B) → M B
  cases none m f = m
  cases (some a) m f = f a

abbrev pub or_raise : {A : Type 0} → Option A → JournalError → M A
or_raise o e = cases o (raise e) pure

abbrev pub guard : Bool → JournalError → M (Unit {0})
guard b e = if b then pure tt else raise e

-- `_create_only_json`: the answer is false where the file exists, whole or torn.
abbrev pub create_new : {V : Type 0} → ActionFile → Option V → (Directory → Directory) → M Bool
create_new file none write d = if is_torn file d then (ok false, d) else (ok true, write d)
create_new file (some _) write d = (ok false, d)

-- `_create_only_json` that a crash stops after `os.open` and before the record is written.
abbrev pub tear_new : {V : Type 0} → ActionFile → Option V → Directory → Directory
tear_new file none d = record d { torn = file ∷ d.torn }
tear_new file (some _) d = d

unfoldable pub tear : ActionFile → Directory → Directory
tear (intent_file k) d = tear_new (intent_file k) (lookup k d.intents) d
tear (start_file k) d = tear_new (start_file k) (lookup k d.starts) d
tear (receipt_file k) d = tear_new (receipt_file k) (lookup k d.receipts) d

unfoldable pub create_intent : ℕ → ActionIntent → M Bool
unfolding create
create_intent k v d =
    create_new (intent_file k) (lookup k d.intents)
      (λ x. record x { intents = create k v x.intents }) d

unfoldable pub create_start : ℕ → ActionStart → M Bool
unfolding create
create_start k v d =
    create_new (start_file k) (lookup k d.starts) (λ x. record x { starts = create k v x.starts }) d

unfoldable pub create_receipt : ℕ → ActionReceipt → M Bool
unfolding create
create_receipt k v d =
    create_new (receipt_file k) (lookup k d.receipts)
      (λ x. record x { receipts = create k v x.receipts }) d

-- `_replace_json` on `scheduler-owner.json`
unfoldable pub write_lease : OwnerLease → M (Unit {0})
write_lease l d = (ok tt, record d { lease = some l })

-- `_create_only_json` on `scheduler-owner-pending.json`; an existing file is an error.
abbrev pub pending_written : Option TakeoverPending → TakeoverPending → M (Unit {0})
pending_written none p d = (ok tt, record d { pending = some p })
pending_written (some _) p d = (err pending_exists, d)

unfoldable pub write_pending : TakeoverPending → M (Unit {0})
write_pending p d = pending_written d.pending p d

-- `_remove_json` on `scheduler-owner-pending.json`
unfoldable pub remove_pending : M (Unit {0})
remove_pending d = (ok tt, record d { pending = none })

abbrev pub same_option : Option ℕ → Option ℕ → Bool
same_option none none = true
same_option (some a) (some b) = a == b
same_option _ _ = false

-- `==` on texts
same_text : List ℕ → List ℕ → Bool
same_text [] [] = true
same_text (a ∷ as') (b ∷ bs) = a == b && same_text as' bs
same_text _ _ = false

-- `==` on leases
unfoldable pub same_lease : OwnerLease → OwnerLease → Bool
unfolding same_text
same_lease a b =
    a.objective_id == b.objective_id
    && a.generation == b.generation
    && a.owner_token_sha256 == b.owner_token_sha256
    && a.pid == b.pid
    && same_text a.process_start b.process_start
    && a.issued_at == b.issued_at
    && a.heartbeat_at == b.heartbeat_at
    && a.expires_at == b.expires_at
    && same_option a.released_at b.released_at

unfoldable pub same_lease? : Option OwnerLease → Option OwnerLease → Bool
unfolding same_lease
same_lease? none none = true
same_lease? (some a) (some b) = same_lease a b
same_lease? _ _ = false

-- `_same_receipt`
unfoldable pub same_receipt : ActionReceipt → ActionReceipt → Bool
unfolding same_text
same_receipt a b =
    a.action_id == b.action_id
    && a.idempotency_key == b.idempotency_key
    && a.owner_generation == b.owner_generation
    && same_status a.status b.status
    && same_text a.summary b.summary
    && a.recorded_at == b.recorded_at
