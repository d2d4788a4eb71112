-- ===== src/Tasks/State.antt =====
-- The files of the tasks in src/dyro/tasks.py: a status and a claim for each task, and the ledger.
-- An operation stands under the task's locks; a call that raises keeps what it has written.
use dyro_engineering_flow.Prelude.{
  ℕ, Bool, true, false, ◌||◌, Option, List, [], ◌∷◌, ◌++◌, ◌==◌, if◌then◌else◌,
}
use dyro_engineering_flow.Planner.Model.{
  Status, backlog, assigned, in_progress, waiting_answer, review, review_pending_signoff, done,
  failed, same_state, ExecutionMode, Task,
}

-- `claim.json`
pub record TaskClaim : Type 0 where
  pub claim_id : ℕ
  pub runner : ℕ
  pub execution_key_id : ℕ
  pub claimed_at : ℕ
  pub lease_expires_at : Option ℕ
  pub generation : ℕ
  pub renewed_at : Option ℕ

-- The calls of `ledger` here.
pub data LedgerEntry : Type 0 where
  claim_entry :
      (is_takeover : Bool) (task runner lease_seconds previous_runner claim_id generation key : ℕ)
      → LedgerEntry
  claim_renew : (task runner lease_seconds : ℕ) → LedgerEntry
  claim_release : (task runner : ℕ) (from to : Status) → LedgerEntry
  status_entry event_append_failed : (task : ℕ) (from to : Status) → LedgerEntry

pub record Workspace : Type 0 where
  pub statuses : ℕ → Status
  pub claims : ℕ → Option TaskClaim
  pub ledger : List LedgerEntry

-- What the operations read and do not write: the contracts of the tasks and the decisions, the
-- policy of the Profile, whether the security of an external Profile is complete, and what is found
-- in Git, in the trusted keys, in the signoff evidence and in the event log.
pub record Environment : Type 0 where
  pub tasks : List Task
  pub decisions : List (ℕ × Bool)
  pub execution_mode : ExecutionMode
  pub external_security : Bool
  pub require_signed_execution : Bool
  pub require_external_signoff : Bool
  pub trusted_key : ℕ → Bool
  pub key_principal : ℕ → ℕ
  pub dependency_integrated : ℕ → Bool
  pub line_on_branch : ℕ → Bool
  pub valid_external_signoff : ℕ → Bool
  pub event_appended : ℕ → Status → Status → Bool

-- The `raise` statements by their message.
pub data TaskError : Type 0 where
  not_external security_missing runner_empty key_missing key_untrusted key_principal_differs
        lease_invalid task_missing graph_invalid decision_open dependency_pending
        dependency_not_integrated branch_differs conflict_active not_claimable already_claimed
        not_claimed claim_expired other_runner gate_protected signoff_missing transition_refused :
      TaskError

pub data Result (A : Type 0) : Type 0 where
  ok : A → Result A
  err : TaskError → Result A

abbrev pub M : Type 0 → Type 0
M A = Workspace → Result A × Workspace

abbrev pub pure : {A : Type 0} → A → M A
pure a w = (ok a, w)

abbrev pub raise : {A : Type 0} → TaskError → M A
raise e w = (err e, w)

abbrev pub continue : {A B : Type 0} → Result A → (A → M B) → M B
continue (ok a) f w = f a w
continue (err e) f w = (err e, w)

infixl 5 ◌>>=◌ ◌>>◌
abbrev pub ◌>>=◌ : {A B : Type 0} → M A → (A → M B) → M B
◌>>=◌ m f w = let (r, w') = m w in continue r f w'

abbrev pub ◌>>◌ : {A B : Type 0} → M A → M B → M B
m >> k = m >>= λ _. k

abbrev pub guard : Bool → TaskError → M (Unit {0})
guard b e = if b then pure tt else raise e

abbrev pub at : {A : Type 0} → ℕ → A → (ℕ → A) → ℕ → A
at k a f j = if j == k then a else f j

-- `ledger`
abbrev pub log : LedgerEntry → Workspace → Workspace
log e w = record w { ledger = w.ledger ++ e ∷ [] }

-- `QUALITY_GATE_STATUSES`
abbrev pub is_gate : Status → Bool
is_gate review = true
is_gate review_pending_signoff = true
is_gate done = true
is_gate _ = false

-- `TRANSITIONS`
abbrev pub may_follow : Status → Status → Bool
may_follow backlog b = same_state b assigned
may_follow assigned b = same_state b in_progress || same_state b failed
may_follow in_progress b = same_state b waiting_answer || same_state b review || same_state b failed
may_follow waiting_answer b =
    same_state b assigned || same_state b in_progress || same_state b failed
may_follow review b =
    same_state b review_pending_signoff || same_state b done || same_state b failed
may_follow review_pending_signoff b = same_state b done || same_state b failed
may_follow failed b = same_state b assigned
may_follow done b = false
