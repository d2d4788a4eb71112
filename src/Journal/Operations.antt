-- ===== src/Journal/Operations.antt =====
-- `reserve_action`, `start_action` and `record_action_receipt` of
-- src/dyro/continuation/action_journal.py: the life of one action.
use dyro_engineering_flow.Prelude.{
  ℕ, Bool, not, ◌&&◌, ◌||◌, Option, none, some, ◌==◌, is_some, find, if◌then◌else◌,
}
use dyro_engineering_flow.Journal.Model.{
  same_kind, cancelled, same_status, ActionIntent, ActionStart, ActionReceipt, ActionRecord,
  OwnerLease, OwnerLeaseGrant,
}
use dyro_engineering_flow.Journal.Store.{
  intent_rebound, start_conflict, already_terminal, unstarted_not_cancelled, binding_mismatch,
  objective_mismatch, intent_fenced, grant_required, M, pure, raise, reads, or_raise, cases, ◌>>=◌,
  ◌>>◌, guard, create_intent, create_start,
}
use dyro_engineering_flow.Journal.Actions.{read_record, list_records, publish_receipt}
use dyro_engineering_flow.Journal.Lease.{
  recover_owner_takeover, assert_owner, current_lease, verify_owner_lease,
}
use dyro_engineering_flow.Budget.Model.{BudgetReservation}

-- `==` on reservations
abbrev pub same_reservation : BudgetReservation → BudgetReservation → Bool
same_reservation a b =
    a.objective_id == b.objective_id
    && a.task_id == b.task_id
    && a.actions == b.actions
    && a.attempts == b.attempts
    && a.failures == b.failures
    && a.parallel == b.parallel
    && a.provider_usage == b.provider_usage

-- `_same_intent_binding`
unfoldable pub same_intent_binding : ActionIntent → ActionIntent → Bool
same_intent_binding a b =
    a.idempotency_key == b.idempotency_key
    && a.objective_id == b.objective_id
    && a.objective_revision == b.objective_revision
    && a.objective_event_seq == b.objective_event_seq
    && a.objective_event_sha256 == b.objective_event_sha256
    && a.scope_sha256 == b.scope_sha256
    && a.snapshot_sha256 == b.snapshot_sha256
    && a.plan_sha256 == b.plan_sha256
    && same_kind a.operation b.operation
    && a.subject_id == b.subject_id
    && a.owner_generation == b.owner_generation
    && a.expected_operation_generation == b.expected_operation_generation
    && a.authority_sha256 == b.authority_sha256
    && same_reservation a.budget_reservation b.budget_reservation

abbrev pub bound_or_raise : ActionIntent → ActionRecord → M ActionRecord
bound_or_raise intent existing =
    if same_intent_binding existing.intent intent then pure existing else raise intent_rebound

abbrev pub create_or_read : ActionIntent → M ActionRecord
create_or_read intent = do
  created ← create_intent intent.action_id intent
  if created
      then pure (record { intent = intent; start = none; receipt = none })
      else (do existing ← reads (read_record intent.action_id); bound_or_raise intent existing)

-- `reserve_action`: the first action with the same key answers.
unfoldable pub reserve_action : ActionIntent → M ActionRecord
reserve_action intent = do
  recover_owner_takeover
  records ← reads list_records
  cases (find (λ r. r.intent.idempotency_key == intent.idempotency_key) records)
      (create_or_read intent) (bound_or_raise intent)

-- A start binds the same action to the same owner; its time may differ.
abbrev pub same_start_binding : ActionStart → ActionStart → Bool
same_start_binding a b =
    a.action_id == b.action_id
    && a.idempotency_key == b.idempotency_key
    && a.owner_generation == b.owner_generation
    && a.owner_token_sha256 == b.owner_token_sha256

abbrev pub started_as : ActionStart → ActionRecord → ActionStart → M ActionRecord
started_as expected r existing =
    if same_start_binding existing expected then pure r else raise start_conflict

abbrev pub write_start : ℕ → ActionStart → ActionRecord → M ActionRecord
write_start id expected r = do
  created ← create_start id expected
  if created
      then pure (record { intent = r.intent; start = some expected; receipt = none })
      else (do
        existing ← reads (read_record id)
        cases existing.start (raise start_conflict) (started_as expected existing))

abbrev pub expected_start : ActionIntent → OwnerLease → ℕ → ActionStart
expected_start intent lease now = record {
  action_id = intent.action_id;
  idempotency_key = intent.idempotency_key;
  owner_generation = intent.owner_generation;
  owner_token_sha256 = lease.owner_token_sha256;
  started_at = now;
}

module _ (token_digest : ℕ → ℕ) where
  -- `start_action`: the durable barrier before any side effect.
  unfoldable pub start_action : ℕ → OwnerLeaseGrant → ℕ → M ActionRecord
  start_action id grant now = do
    recover_owner_takeover
    r ← reads (read_record id)
    guard (not (is_some r.receipt)) already_terminal
    lease ← current_lease
    assert_owner token_digest lease grant now
    guard
        (lease.objective_id == r.intent.objective_id
          && lease.generation == r.intent.owner_generation)
        intent_fenced
    let expected = expected_start r.intent lease now
    cases r.start (write_start id expected r) (started_as expected r)

  -- A receipt without a start: only a cancellation, under the current owner's grant.
  abbrev pub cancel_checked :
      Option (OwnerLeaseGrant × ℕ) → ActionReceipt → ActionRecord → M (Unit {0})
  cancel_checked grant receipt r = do
    guard (same_status receipt.status cancelled) unstarted_not_cancelled
    (owner, now) ← or_raise grant grant_required
    lease ← verify_owner_lease token_digest owner now
    guard (lease.objective_id == r.intent.objective_id) objective_mismatch

  -- `record_action_receipt`, with the grant and its instant, if they are given.
  unfoldable pub record_action_receipt :
      ActionReceipt → Option (OwnerLeaseGrant × ℕ) → M ActionRecord
  record_action_receipt receipt grant = do
    recover_owner_takeover
    r ← reads (read_record receipt.action_id)
    guard
        (receipt.idempotency_key == r.intent.idempotency_key
          && receipt.owner_generation == r.intent.owner_generation)
        binding_mismatch
    if is_some r.receipt || is_some r.start then pure tt else cancel_checked grant receipt r
    publish_receipt receipt
