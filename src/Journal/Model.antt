-- ===== src/Journal/Model.antt =====
-- The records of src/dyro/continuation/action_models.py, with the checks of their
-- `__post_init__`, and the lease records of src/dyro/continuation/owner_lease.py. Identifiers,
-- digests and tokens are numbers, 0 for the empty text; a summary is its code points.
use dyro_engineering_flow.Prelude.{
  length, ℕ, Bool, true, false, not, ◌&&◌, ◌||◌, Option, none, some, List, ltb, leb, ◌==◌, all,
  length, if◌then◌else◌,
}
use dyro_engineering_flow.Budget.Model.{BudgetReservation}

pub data ActionKind : Type 0 where
  execute_task review_task merge_task probe_trigger wait ask_user pause complete : ActionKind
  repair_required : ActionKind

pub data ActionStatus : Type 0 where
  reserved started succeeded failed uncertain cancelled : ActionStatus

-- The values of the enumeration, in order, to compare by.
abbrev pub kind_code : ActionKind → ℕ
kind_code execute_task = 0
kind_code review_task = 1
kind_code merge_task = 2
kind_code probe_trigger = 3
kind_code wait = 4
kind_code ask_user = 5
kind_code pause = 6
kind_code complete = 7
kind_code repair_required = 8

abbrev pub same_kind : ActionKind → ActionKind → Bool
same_kind a b = kind_code a == kind_code b

abbrev pub status_code : ActionStatus → ℕ
status_code reserved = 0
status_code started = 1
status_code succeeded = 2
status_code failed = 3
status_code uncertain = 4
status_code cancelled = 5

abbrev pub same_status : ActionStatus → ActionStatus → Bool
same_status a b = status_code a == status_code b

-- `_MUTATING_OPERATIONS`
abbrev pub is_mutating : ActionKind → Bool
is_mutating execute_task = true
is_mutating review_task = true
is_mutating merge_task = true
is_mutating _ = false

-- `_TERMINAL_STATUSES`
abbrev pub is_terminal : ActionStatus → Bool
is_terminal reserved = false
is_terminal started = false
is_terminal _ = true

-- `safe_summary`
unfoldable pub safe_summary : List ℕ → Bool
safe_summary text = ltb 0 (length text) && leb (length text) 512 && all (λ c. leb 32 c) text

pub record ActionIntent : Type 0 where
  pub action_id : ℕ
  pub objective_id : ℕ
  pub objective_revision : ℕ
  pub objective_event_seq : ℕ
  pub objective_event_sha256 : ℕ
  pub scope_sha256 : ℕ
  pub snapshot_sha256 : ℕ
  pub plan_sha256 : ℕ
  pub operation : ActionKind
  pub subject_id : ℕ
  pub owner_generation : ℕ
  pub expected_operation_generation : ℕ
  pub authority_sha256 : ℕ
  pub budget_reservation : BudgetReservation
  pub created_at : ℕ
  pub idempotency_key : ℕ

pub record ActionStart : Type 0 where
  pub action_id : ℕ
  pub idempotency_key : ℕ
  pub owner_generation : ℕ
  pub owner_token_sha256 : ℕ
  pub started_at : ℕ

pub record ActionReceipt : Type 0 where
  pub action_id : ℕ
  pub idempotency_key : ℕ
  pub owner_generation : ℕ
  pub status : ActionStatus
  pub summary : List ℕ
  pub recorded_at : ℕ

pub record ActionRecord : Type 0 where
  pub intent : ActionIntent
  pub start : Option ActionStart
  pub receipt : Option ActionReceipt

-- `ActionRecord.status`
abbrev status_of : Option ActionStart → Option ActionReceipt → ActionStatus
status_of start (some receipt) = receipt.status
status_of (some _) none = uncertain
status_of none none = reserved

unfoldable pub record_status : ActionRecord → ActionStatus
record_status r = status_of r.start r.receipt

-- The checks that `action_idempotency_key` and `ActionIntent.__post_init__` share.
unfoldable pub binding_accepted : ActionIntent → Bool
binding_accepted i =
    not (i.objective_id == 0)
    && not (i.subject_id == 0)
    && ltb 0 i.objective_revision
    && ltb 0 i.objective_event_seq
    && ltb 0 i.owner_generation
    && is_mutating i.operation
    && i.budget_reservation.objective_id == i.objective_id
    && i.budget_reservation.task_id == i.subject_id

-- What the idempotency key is the digest of: the intent without its name, time and key.
abbrev pub key_payload : ActionIntent → ActionIntent
key_payload i = record i { action_id = 0; created_at = 0; idempotency_key = 0 }

module _ (digest : ActionIntent → ℕ) where
  unfoldable pub action_idempotency_key : ActionIntent → Option ℕ
  unfolding binding_accepted
  action_idempotency_key i = if binding_accepted i then some (digest (key_payload i)) else none

  -- `ActionIntent.__post_init__`: the key is filled in, and one that is given must agree.
  unfoldable pub action_intent : ActionIntent → Option ActionIntent
  unfolding action_idempotency_key
  action_intent i = elim (action_idempotency_key i) [
    | none ↦ none
    | some expected ↦
        if i.action_id == 0 || (not (i.idempotency_key == 0) && not (i.idempotency_key == expected))
        then none
        else some (record i { idempotency_key = expected })
  ]

-- `ActionStart.__post_init__`
unfoldable pub start_accepted : ActionStart → Bool
start_accepted s = not (s.action_id == 0) && ltb 0 s.owner_generation

-- `ActionReceipt.__post_init__`
unfoldable pub receipt_accepted : ActionReceipt → Bool
unfolding safe_summary
receipt_accepted r =
    not (r.action_id == 0)
    && ltb 0 r.owner_generation
    && is_terminal r.status
    && safe_summary r.summary

pub record OwnerLease : Type 0 where
  pub objective_id : ℕ
  pub generation : ℕ
  pub owner_token_sha256 : ℕ
  pub pid : ℕ
  pub process_start : List ℕ
  pub issued_at : ℕ
  pub heartbeat_at : ℕ
  pub expires_at : ℕ
  pub released_at : Option ℕ

-- `OwnerLease.active`
abbrev pub active : OwnerLease → Bool
active l = elim l.released_at [ none ↦ true | some _ ↦ false ]

-- `OwnerLease.__post_init__`
unfoldable pub lease_accepted : OwnerLease → Bool
lease_accepted l =
    not (l.objective_id == 0)
    && ltb 0 l.generation
    && ltb 0 l.pid
    && ltb 0 (length l.process_start)
    && leb (length l.process_start) 256
    && leb l.issued_at l.heartbeat_at
    && ltb l.heartbeat_at l.expires_at
    && elim l.released_at [
      | none ↦ true
      | some released ↦ leb l.heartbeat_at released && leb released l.expires_at
    ]

pub record OwnerLeaseGrant : Type 0 where
  pub lease : OwnerLease
  pub owner_token : ℕ

-- `OwnerLeaseGrant.__post_init__`
unfoldable pub grant_accepted : (ℕ → ℕ) → OwnerLeaseGrant → Bool
grant_accepted token_digest g = token_digest g.owner_token == g.lease.owner_token_sha256
