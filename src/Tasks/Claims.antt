-- ===== src/Tasks/Claims.antt =====
-- `claim_task`, `renew_task_claim` and `release_task_claim` of src/dyro/tasks.py, for the task `t`.
-- The clock is read once in a call, as `now`; `claim_id` is the identifier that is drawn; a key
-- identifier is 0 where none is given.
use dyro_engineering_flow.Prelude.{
  ℕ, ◌+◌, Bool, true, false, not, ◌&&◌, ◌||◌, Option, none, some, leb, ◌==◌, if◌then◌else◌,
}
use dyro_engineering_flow.Planner.Model.{
  Status, backlog, in_progress, waiting_answer, assigned, same_state, is_external, Task,
}
use dyro_engineering_flow.Tasks.State.{
  TaskClaim, claim_entry, claim_renew, claim_release, Environment, TaskError, not_external,
  security_missing, runner_empty, key_missing, key_untrusted, key_principal_differs, lease_invalid,
  not_claimable, already_claimed, not_claimed, claim_expired, other_runner, ok, err, M, pure, raise,
  ◌>>◌, at, log,
}
use dyro_engineering_flow.Tasks.Dispatch.{claim_expired_at, check_dispatchable, set_status}

-- The checks before the locks are taken.
abbrev pub key_error : Environment → ℕ → ℕ → Option TaskError
key_error env runner key =
    if env.require_signed_execution && key == 0
    then some key_missing
    else if key == 0
    then none
    else if not (env.trusted_key key)
    then some key_untrusted
    else if env.require_signed_execution && not (env.key_principal key == runner)
    then some key_principal_differs
    else none

-- `_claim_lease_seconds`
abbrev pub lease_accepted : ℕ → Bool
lease_accepted n = leb 1 n && leb n 604800

abbrev pub claim_error : Environment → (runner key lease_seconds : ℕ) → Option TaskError
claim_error env runner key lease_seconds =
    if not (is_external env.execution_mode)
    then some not_external
    else if not env.external_security
    then some security_missing
    else if runner == 0
    then some runner_empty
    else elim (key_error env runner key) [
      | some e ↦ some e
      | none ↦ if lease_accepted lease_seconds then none else some lease_invalid
    ]

abbrev pub is_expired : Option TaskClaim → ℕ → Bool
is_expired none now = false
is_expired (some c) now = claim_expired_at c now

abbrev pub stands : Option TaskClaim → ℕ → Bool
stands none now = false
stands (some c) now = not (claim_expired_at c now)

abbrev pub claimable : Status → Bool
claimable s = same_state s backlog || same_state s assigned || same_state s waiting_answer

abbrev pub next_generation : Option TaskClaim → ℕ
next_generation none = 1
next_generation (some c) = c.generation + 1

abbrev pub previous_runner : Option TaskClaim → ℕ → ℕ
previous_runner none now = 0
previous_runner (some c) now = if claim_expired_at c now then c.runner else 0

abbrev pub target_of : Status → Status
target_of s = if same_state s waiting_answer then waiting_answer else assigned

abbrev pub new_claim : Option TaskClaim → (runner key lease_seconds now claim_id : ℕ) → TaskClaim
new_claim existing runner key lease_seconds now claim_id = record {
  claim_id = claim_id;
  runner = runner;
  execution_key_id = key;
  claimed_at = now;
  lease_expires_at = some (now + lease_seconds);
  generation = next_generation existing;
  renewed_at = none;
}

-- What follows the writing of the claim.
abbrev pub after_claim :
    Environment
    → Task
    → (runner key lease_seconds now claim_id : ℕ) → Option TaskClaim
    → Status
    → M Status
after_claim env t runner key lease_seconds now claim_id existing current =
    (if same_state current backlog || same_state current in_progress
      then set_status env t.id assigned (same_state current in_progress) false false
      else pure tt)
    >> λ w. (
      ok (target_of current),
      log
          (claim_entry (is_expired existing now) t.id runner lease_seconds
            (previous_runner existing now) claim_id (next_generation existing) key)
          w,
    )

-- The part of `claim_task` under the locks.
abbrev pub claim_locked :
    Environment → Task → (runner key lease_seconds now claim_id : ℕ) (dry_run : Bool) → M Status
claim_locked env t runner key lease_seconds now claim_id dry_run w =
    let current = w.statuses t.id in
    let existing = w.claims t.id in
    if not (claimable current) && not (same_state current in_progress && is_expired existing now)
    then (err not_claimable, w)
    else if stands existing now
    then (err already_claimed, w)
    else if dry_run
    then (ok (target_of current), w)
    else after_claim env t runner key lease_seconds now claim_id existing current (record w {
      claims = at t.id (some (new_claim existing runner key lease_seconds now claim_id)) w.claims;
    })

unfoldable pub claim_task :
    Environment → Task → (runner key lease_seconds now claim_id : ℕ) (dry_run : Bool) → M Status
unfolding check_dispatchable set_status
claim_task env t runner key lease_seconds now claim_id dry_run =
    elim (claim_error env runner key lease_seconds) [
      | some e ↦ raise e
      | none ↦
          check_dispatchable env t now
          >> claim_locked env t runner key lease_seconds now claim_id dry_run
    ]

-- `_require_external_security` and the mode before it
abbrev pub mode_error : Environment → Option TaskError
mode_error env =
    if not (is_external env.execution_mode)
    then some not_external
    else if not env.external_security
    then some security_missing
    else none

abbrev pub renew_claim :
    Task → (runner lease_seconds now : ℕ) (dry_run : Bool) → Option TaskClaim → M Status
renew_claim t runner lease_seconds now dry_run none w = (err not_claimed, w)
renew_claim t runner lease_seconds now dry_run (some c) w =
    if claim_expired_at c now
    then (err claim_expired, w)
    else if not (c.runner == runner)
    then (err other_runner, w)
    else if dry_run
    then (ok (w.statuses t.id), w)
    else (
      ok (w.statuses t.id),
      log (claim_renew t.id runner lease_seconds) (record w {
        claims =
            at t.id
              (some
                (record c { lease_expires_at = some (now + lease_seconds); renewed_at = some now }))
              w.claims;
      }),
    )

unfoldable pub renew_task_claim :
    Environment → Task → (runner lease_seconds now : ℕ) (dry_run : Bool) → M Status
renew_task_claim env t runner lease_seconds now dry_run w = elim (mode_error env) [
  | some e ↦ (err e, w)
  | none ↦
      if lease_accepted lease_seconds
      then renew_claim t runner lease_seconds now dry_run (w.claims t.id) w
      else (err lease_invalid, w)
]

abbrev pub status_after_release : Status → Status
status_after_release s =
    if same_state s assigned then backlog else if same_state s in_progress then assigned else s

abbrev pub release_claim : Environment → Task → ℕ → Bool → Option TaskClaim → M Status
release_claim env t runner dry_run none w = (err not_claimed, w)
release_claim env t runner dry_run (some c) w =
    let current = w.statuses t.id in
    let next = status_after_release current in
    if not (c.runner == runner)
    then (err other_runner, w)
    else if dry_run
    then (ok next, w)
    else ((if not (same_state next current)
            then set_status env t.id next true false false
            else pure tt)
          >> λ w'. (ok next, log (claim_release t.id runner current next) w'))
        (record w { claims = at t.id none w.claims })

unfoldable pub release_task_claim : Environment → Task → ℕ → Bool → M Status
unfolding set_status
release_task_claim env t runner dry_run w = elim (mode_error env) [
  | some e ↦ (err e, w)
  | none ↦ release_claim env t runner dry_run (w.claims t.id) w
]
