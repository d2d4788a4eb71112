-- ===== src/Journal/Tests.antt =====
-- The journal's theorems in one short history: a takeover, an action reserved and started.
use dyro_engineering_flow.Journal.Bound.{Belongs}
use dyro_engineering_flow.Prelude.{
  false, ℕ, suc, ◌≤◌, ◌<◌, ◌≡◌, refl, sym, ap, subst, ◌∙◌, none, some, [], ◌∷◌, arith,
}
use dyro_engineering_flow.Prelude.Dict.{lookup}
use dyro_engineering_flow.Journal.Model.{
  execute_task, ActionIntent, ActionRecord, OwnerLease, OwnerLeaseGrant,
}
use dyro_engineering_flow.Journal.Store.{
  start_file, err, damaged, tear, Directory, ok, ◌>>=◌, cases, write_lease, create_intent,
  create_start,
}
use dyro_engineering_flow.Journal.Actions.{
  has_torn, read_record, prepare_action_cancellation, list_records,
}
use dyro_engineering_flow.Journal.Lease.{
  recover_owner_takeover, prepare_takeover, acquire_owner_lease, assert_owner, new_lease,
}
use dyro_engineering_flow.Journal.Operations.{reserve_action, start_action}
use dyro_engineering_flow.Journal.History.{Extends, generation}
use dyro_engineering_flow.Journal.Sound.{IsSound}
use dyro_engineering_flow.Journal.Runs.{
  crash_in_file, Takeover, reserve, start, acquire, crash_at_lease, run, run_all, run_all-Extends,
}
use dyro_engineering_flow.Journal.Histories.{run_all-IsSound, run_all-readable}
use dyro_engineering_flow.Journal.Fencing.{Owns}
use dyro_engineering_flow.Journal.Starts.{MayStart, started_record, with_start, start_action_once}
use dyro_engineering_flow.Journal.Owners.{IsFree, acquire-fences}

abbrev pub digest : ℕ → ℕ
digest token = suc token

abbrev takeover : Takeover
takeover = record {
  objective = 1;
  now = 10;
  ttl = 60;
  pid = 4;
  process_start = 9 ∷ [];
  token = 5;
  summary = 65 ∷ [];
}

abbrev pub empty : Directory
empty = record { lease = none; pending = none; intents = []; starts = []; receipts = []; torn = [] }

abbrev intent : ActionIntent
intent = record {
  action_id = 11;
  objective_id = 1;
  objective_revision = 1;
  objective_event_seq = 1;
  objective_event_sha256 = 2;
  scope_sha256 = 3;
  snapshot_sha256 = 4;
  plan_sha256 = 5;
  operation = execute_task;
  subject_id = 7;
  owner_generation = 1;
  expected_operation_generation = 0;
  authority_sha256 = 6;
  budget_reservation = record {
    objective_id = 1;
    task_id = 7;
    actions = 1;
    attempts = 1;
    failures = 0;
    parallel = 1;
    provider_usage = 0;
  };
  created_at = 12;
  idempotency_key = 99;
}

abbrev pub first_lease : OwnerLease
first_lease = new_lease digest none 1 10 60 4 (9 ∷ []) 5

abbrev pub grant : OwnerLeaseGrant
grant = record { lease = first_lease; owner_token = 5 }

pub taken :
    (acquire_owner_lease digest takeover.objective takeover.now takeover.ttl takeover.pid
      takeover.process_start takeover.token takeover.summary empty).0
    ≡ ok grant
unfolding acquire_owner_lease recover_owner_takeover prepare_takeover prepare_action_cancellation
    list_records write_lease ◌>>=◌ cases
taken = refl

abbrev owned : Directory
owned = record empty { lease = some first_lease }

abbrev pub reserved_once : Directory
reserved_once = record owned { intents = (11, intent) ∷ [] }

run_acquire : run digest (acquire takeover) empty ≡ owned
unfolding run acquire_owner_lease recover_owner_takeover prepare_takeover
    prepare_action_cancellation list_records write_lease ◌>>=◌ cases
run_acquire = refl

run_reserve : run_all digest (reserve intent ∷ []) owned ≡ reserved_once
unfolding run_all run reserve_action recover_owner_takeover list_records create_intent ◌>>=◌ cases
run_reserve = refl

history : run_all digest (reserve intent ∷ []) (run digest (acquire takeover) empty) ≡ reserved_once
history = ap (run_all digest (reserve intent ∷ [])) run_acquire ∙ run_reserve

abbrev answer : ActionRecord
answer = record {
  intent = intent;
  start = some (record {
    action_id = 11;
    idempotency_key = 99;
    owner_generation = 1;
    owner_token_sha256 = 6;
    started_at = 20;
  });
  receipt = none;
}

started_now : (start_action digest 11 grant 20 reserved_once).0 ≡ ok answer
unfolding start_action recover_owner_takeover read_record assert_owner create_start ◌>>=◌ cases
started_now = refl

acquire-fences_example :
    IsFree (recover_owner_takeover empty).1.lease 10
    × (generation empty.lease < 1)
    × (1 ≤ 1)
    × (r : ActionRecord) × (read_record 11
          (recover_owner_takeover
            (run_all digest (reserve intent ∷ []) (run digest (acquire takeover) empty))).1
        ≡ ok r)
    × (1 ≤ r.intent.owner_generation)
acquire-fences_example =
    acquire-fences digest takeover empty (reserve intent ∷ []) 11 grant 20 taken
      (subst (λ d. (start_action digest 11 grant 20 d).0 ≡ ok answer) (sym history) started_now)

run_all-Extends_example :
    Extends reserved_once
      (run_all digest (crash_at_lease takeover ∷ start 11 grant 20 ∷ []) reserved_once)
run_all-Extends_example =
    run_all-Extends digest (crash_at_lease takeover ∷ start 11 grant 20 ∷ []) reserved_once

empty-IsSound : IsSound owned
empty-IsSound = record {
  bound = λ k i h. ground arith;
  start_known = λ k h. refl;
  receipt_known = λ k h. refl;
}

reserved-IsSound : IsSound reserved_once
reserved-IsSound =
    subst IsSound run_reserve (run_all-IsSound digest (reserve intent ∷ []) owned empty-IsSound)

found : lookup 11 reserved_once.intents ≡ some intent
found = refl

abbrev later : Directory
later = run_all digest (start 11 grant 20 ∷ []) reserved_once

later_whole : has_torn 11 later ≡ false
unfolding run_all run start_action recover_owner_takeover read_record assert_owner create_start
    ◌>>=◌ cases
later_whole = refl

-- A crash between the creation and the writing of a start: the action is not read or started again.
abbrev torn_once : Directory
torn_once = run_all digest (crash_in_file (start_file 11) ∷ []) reserved_once

torn_start :
    (read_record 11 torn_once ≡ err damaged)
    × ((start_action digest 11 grant 20 torn_once).0 ≡ err damaged)
unfolding run_all run tear start_action recover_owner_takeover read_record ◌>>=◌ cases
torn_start = (refl, refl)

run_all-readable_example :
    (read_record 11 later
      ≡ ok (record {
        intent = intent;
        start = lookup 11 later.starts;
        receipt = lookup 11 later.receipts;
      }))
    × Belongs 11 intent (lookup 11 later.starts) (lookup 11 later.receipts)
run_all-readable_example =
    run_all-readable digest (start 11 grant 20 ∷ []) reserved_once 11 reserved-IsSound found
      later_whole

grant-Owns : (now : ℕ) → 10 ≤ now → now < 70 → Owns digest first_lease grant now
grant-Owns now a b = record {
  is_active = refl;
  unexpired = b;
  not_before = a;
  generation = refl;
  token = refl;
}

abbrev may_start : MayStart digest 11 grant 20 reserved_once
may_start = record {
  settled = refl;
  lease = first_lease;
  stands = refl;
  owned = grant-Owns 20 (omega arith) (omega arith);
  same_digest = refl;
  intent = intent;
  known = found;
  open_still = refl;
  whole = refl;
  objective = refl;
  generation = refl;
}

start_action_once_example :
    (start_action digest 11 grant 20 reserved_once ≡ (
      ok (started_record intent first_lease 20),
      with_start 11 intent first_lease 20 reserved_once,
    ))
    × (start_action digest 11 grant 30 (with_start 11 intent first_lease 20 reserved_once) ≡ (
      ok (started_record intent first_lease 20),
      with_start 11 intent first_lease 20 reserved_once,
    ))
start_action_once_example =
    start_action_once digest 11 grant 20 30 reserved_once may_start reserved-IsSound refl
      (grant-Owns 30 (omega arith) (omega arith))
