-- ===== src/Journal/Actions.antt =====
-- src/dyro/continuation/action_journal.py: reading actions, publishing receipts, and the
-- cancellation of the actions that were never started.
use dyro_engineering_flow.Prelude.{
  false, ℕ, Bool, true, not, ◌&&◌, ◌||◌, Option, none, some, List, [], ◌∷◌, ltb, leb, ◌==◌, all,
  any, is_some, length, select, map, if◌then◌else◌,
}
use dyro_engineering_flow.Prelude.Dict.{lookup, keys}
use dyro_engineering_flow.Journal.Model.{
  cancelled, same_status, safe_summary, ActionIntent, ActionStart, ActionReceipt, ActionRecord,
}
use dyro_engineering_flow.Journal.Store.{
  ActionFile, is_torn, intent_file, start_file, receipt_file, damaged, file_not_found, orphaned,
  binding_mismatch, unstarted_not_cancelled, receipt_conflict, plan_invalid, too_many_reserved,
  plan_conflict, plan_started, summary_invalid, Result, ok, err, Directory, M, pure, raise, reads,
  ◌>>=◌, ◌>>◌, guard, cases, create_receipt, same_receipt,
}

abbrev pub start_bound : ActionIntent → Option ActionStart → Bool
start_bound i none = true
start_bound i (some s) =
    s.action_id == i.action_id
    && s.idempotency_key == i.idempotency_key
    && s.owner_generation == i.owner_generation

abbrev pub receipt_bound : ActionIntent → Option ActionReceipt → Bool
receipt_bound i none = true
receipt_bound i (some r) =
    r.action_id == i.action_id
    && r.idempotency_key == i.idempotency_key
    && r.owner_generation == i.owner_generation

-- Without a start only a cancelled receipt may stand.
abbrev pub receipt_allowed : Option ActionStart → Option ActionReceipt → Bool
receipt_allowed none (some r) = same_status r.status cancelled
receipt_allowed _ _ = true

abbrev pub checked_record :
    ActionIntent → Option ActionStart → Option ActionReceipt → Result ActionRecord
checked_record intent start receipt =
    if start_bound intent start && receipt_bound intent receipt
    then (if receipt_allowed start receipt
        then ok (record { intent = intent; start = start; receipt = receipt })
        else err unstarted_not_cancelled)
    else err binding_mismatch

-- A file of the action holds no whole record.
abbrev pub has_torn : ℕ → Directory → Bool
has_torn id d =
    is_torn (intent_file id) d || is_torn (start_file id) d || is_torn (receipt_file id) d

-- `read_action`; a torn file raises wherever it is read.
unfoldable pub read_record : ℕ → Directory → Result ActionRecord
read_record id d = if is_torn (intent_file id) d then err damaged else elim (lookup id d.intents) [
  | none ↦ err file_not_found
  | some intent ↦
      if is_torn (start_file id) d || is_torn (receipt_file id) d
      then err damaged
      else checked_record intent (lookup id d.starts) (lookup id d.receipts)
]

-- The name has no file among the intents.
abbrev pub is_orphan : ℕ → Directory → Bool
is_orphan k d = not (is_some (lookup k d.intents)) && not (is_torn (intent_file k) d)

-- Some name of the first directory is missing from the second.
unfoldable pub has_orphan : List ℕ → Directory → Bool
has_orphan names d = any (λ k. is_orphan k d) names

abbrev pub is_torn_orphan : Directory → ActionFile → Bool
is_torn_orphan d (intent_file k) = false
is_torn_orphan d (start_file k) = is_orphan k d
is_torn_orphan d (receipt_file k) = is_orphan k d

unfoldable pub read_all : List ℕ → Directory → Result (List ActionRecord)
unfolding read_record
read_all [] d = ok []
read_all (k ∷ ks) d =
    let rest = read_all ks d in
    elim (read_record k d) [
      | err e ↦ err e
      | ok r ↦ elim rest [ ok rs ↦ ok (r ∷ rs) | err e ↦ err e ]
    ]

-- `list_actions`; a torn file is one of an action that is read, or an orphan.
unfoldable pub list_records : Directory → Result (List ActionRecord)
unfolding has_orphan read_all
list_records d =
    if has_orphan (keys d.starts) d
      || has_orphan (keys d.receipts) d
      || any (is_torn_orphan d) d.torn
    then err orphaned
    else if any (λ f. true) d.torn
    then err damaged
    else read_all (keys d.intents) d

-- `_publish_receipt`, where the receipt's file exists after all: the same receipt is no error.
abbrev pub published : ActionReceipt → ActionRecord → ActionReceipt → M ActionRecord
published receipt r old = if same_receipt old receipt then pure r else raise receipt_conflict

abbrev pub publish_new : ActionReceipt → ActionRecord → M ActionRecord
publish_new receipt r = do
  created ← create_receipt receipt.action_id receipt
  if created then pure (record r { receipt = some receipt }) else (do
    current ← reads (read_record receipt.action_id)
    cases current.receipt (raise receipt_conflict) (published receipt current))

-- `_publish_receipt`
unfoldable pub publish_receipt : ActionReceipt → M ActionRecord
publish_receipt receipt = do
  r ← reads (read_record receipt.action_id)
  guard
      (receipt.idempotency_key == r.intent.idempotency_key
        && receipt.owner_generation == r.intent.owner_generation)
      binding_mismatch
  cases r.receipt (publish_new receipt r) (published receipt r)

ascending_from : ℕ → List ActionReceipt → Bool
ascending_from low [] = true
ascending_from low (r ∷ rs) = ltb low r.action_id && ascending_from r.action_id rs

-- The identifiers ascend, with none twice.
abbrev ascending : List ActionReceipt → Bool
ascending [] = true
ascending (r ∷ rs) = ascending_from r.action_id rs

-- `cancellation_plan_from_payload`, with `MAX_CANCELLATION_RECEIPTS` = 128
unfoldable pub plan_accepted : List ActionReceipt → Bool
unfolding ascending_from
plan_accepted receipts =
    ltb 0 (length receipts)
    && leb (length receipts) 128
    && ascending receipts
    && all (λ r. same_status r.status cancelled) receipts

abbrev pub is_reserved : ActionRecord → Bool
is_reserved r = not (is_some r.start) && not (is_some r.receipt)

abbrev pub cancelled_receipt : List ℕ → ℕ → ActionRecord → ActionReceipt
cancelled_receipt summary now r = record {
  action_id = r.intent.action_id;
  idempotency_key = r.intent.idempotency_key;
  owner_generation = r.intent.owner_generation;
  status = cancelled;
  summary = summary;
  recorded_at = now;
}

abbrev pub reserved_plan : List ℕ → ℕ → List ActionRecord → Result (Option (List ActionReceipt))
reserved_plan summary now [] = ok none
reserved_plan summary now reserved =
    if ltb 128 (length reserved)
    then err too_many_reserved
    else if safe_summary summary
    then ok (some (map (cancelled_receipt summary now) reserved))
    else err summary_invalid

-- `prepare_action_cancellation`
unfoldable pub prepare_action_cancellation :
    List ℕ → ℕ → Directory → Result (Option (List ActionReceipt))
unfolding list_records safe_summary
prepare_action_cancellation summary now d = elim (list_records d) [
  | err e ↦ err e
  | ok records ↦ reserved_plan summary now (select is_reserved records)
]

-- The first loop of `apply_action_cancellation`: every receipt can be written.
unfoldable pub plan_applies : List ActionReceipt → M (Unit {0})
plan_applies [] = pure tt
plan_applies (receipt ∷ receipts) = do
  r ← reads (read_record receipt.action_id)
  guard (elim r.receipt [ none ↦ true | some old ↦ same_receipt old receipt ]) plan_conflict
  guard (is_some r.receipt || not (is_some r.start)) plan_started
  plan_applies receipts

-- The second loop.
unfoldable pub publish_all : List ActionReceipt → M (List ActionRecord)
publish_all [] = pure []
publish_all (receipt ∷ receipts) = do
  r ← publish_receipt receipt
  rs ← publish_all receipts
  pure (r ∷ rs)

-- `apply_action_cancellation`
unfoldable pub apply_action_cancellation : List ActionReceipt → M (List ActionRecord)
apply_action_cancellation receipts = do
  guard (plan_accepted receipts) plan_invalid
  plan_applies receipts
  publish_all receipts

-- `cancel_unstarted_actions`
unfoldable pub cancel_unstarted_actions : List ℕ → ℕ → M (List ActionRecord)
cancel_unstarted_actions summary now = do
  plan ← reads (prepare_action_cancellation summary now)
  cases plan (pure []) apply_action_cancellation
