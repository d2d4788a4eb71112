-- ===== src/Lib.antt =====
-- Dyro Engineering Flow: the continuation engine, verified.
--
-- Dyro plans, bounds and records the work of agents on the tasks of a workspace. The part that is
-- modelled is the engine that continues an Objective, what it needs to be safe, and the tasks that
-- it works on:
--
--   * the planner reads a fixed snapshot of the tasks and decides which may run (readiness), and
--     which actions a plan selects, blocks or asks the user about;
--   * the scheduler tick takes a plan and selects one wave of mutations, bounded by the free capacity,
--     in which no two actions claim one task, agent, conflict group or merge line;
--   * the peer wave gives each task of a wave the harness that executes it;
--   * the triggers say when a plan should be considered again, from built-in facts or from what an
--     untrusted provider prints, and when to probe next;
--   * the task graph is checked for cycles and faults before any task is claimed;
--   * a task has a status, whose last ones only a passed quality gate writes, and a claim, a lease that
--     one runner holds;
--   * the event log numbers what happens to tasks, and is rotated into archives when it is full;
--   * the console exchanges a one-time secret for a session with deadlines;
--   * the budget decides whether one more action may be taken;
--   * the objective store asks the stored Objective for its authority, charges what its journal holds
--     to its budget, and only then reserves or starts an action;
--   * the action journal and the owner lease make an action durable: it is reserved as an intent,
--     started under the lease of the current owner, and closed by a receipt. A takeover of the lease
--     cancels what was never started, and survives a crash between any two of its file writes.
--
-- Files and sources:
--
--   * Budget (Model, Limits, Decide, Progress): src/dyro/continuation/budgets.py and BudgetLimit of
--     models.py. `effective_budget`, `decide_budget`, `progress_fingerprint` and `decide_no_progress`
--     have the names of the code; `decision_input` and the functions in `_accepted` are the
--     `__post_init__` of the records. Budget/Within, Reasons and Admission have
--     the proofs.
--   * Journal/Model: the records of src/dyro/continuation/action_models.py and owner_lease.py.
--     Journal/Store: the files of one Objective. `Directory` holds the lease, the pending takeover,
--     three dictionaries of files and the torn files, which were created and not written; `M` is a state monad with errors, in which a call that raises
--     keeps what it has written, as the code does.
--   * Journal/Actions and Journal/Operations: action_journal.py. `read_record` is `read_action`,
--     `list_records` is `list_actions`, `publish_receipt` is `_publish_receipt`, `plan_accepted` is
--     `cancellation_plan_from_payload`; the rest have the names of the code.
--   * Journal/Lease: owner_lease.py. `pending_accepted` is the check of `_read_takeover_pending`,
--     `current_lease` is `read_optional_lease` with the error of its callers.
--   * Journal/Runs: histories of calls and crashes. Journal/Keeps, History, Reads, Growth, Sound, Bound,
--     Soundness, OwnedSoundness, Histories, Fencing, Owners, Starts, Recovery
--     and Verified have the proofs.
--   * Planner (Model, Readiness, Plan): src/dyro/continuation/planner.py, and the records of
--     snapshot.py, models.py and tasks.py that it reads. `find_task` is `tasks_by_id`, `classify` is
--     the body of the loop of `build_task_readiness`, `report` the one of
--     `build_continuation_plan`, `build_plan` is `_build_plan`. Planner/Ready, Listed, Candidates,
--     Permitted, Delivered and Complete have the proofs.
--   * Objective (Authority, Usage, Reserve, Preview): src/dyro/continuation/store.py.
--     `reserve_supervised_action` is `reserve_supervised_objective_action`, `check_authority` its checks
--     before the budget and `decide` its decision; `preview_wave` is
--     `preview_objective_wave_budgets`; the rest have the names of the code. Objective/Charged, Unspent,
--     Admission, Histories, Spent, Granted and Authorized have the proofs.
--   * Engine/Tick: src/dyro/continuation/engine.py. `select_one` is the body of the loop of
--     `build_scheduler_tick`, `place` its part for mutations. Engine/Checks: `tick_accepted` is
--     the `__post_init__` of SchedulerTick; `identified` is the part of it that the tick can fail, and
--     the form of a digest is a parameter. Engine/Claims, Wave, Loop, Ticks, Total, Sorted
--     and Accepted have the proofs.
--   * PeerWave/Bind: src/dyro/peer_wave.py. `bind_one` is the body of the loop of
--     `bind_wave_executors`. PeerWave/Capacity and Bindings have the proofs.
--   * Trigger (Model, Schedule, Provider): src/dyro/continuation/triggers.py, with TriggerState and
--     TriggerObservation of models.py. `read_facts` is `_facts`, `probe_kind` the body of
--     `probe_builtin`, `parse_fields` the part of `parse_provider_observation` after the object is
--     read; the rest have the names of the code. The digest of the jitter, `json.loads`,
--     `datetime.fromisoformat` and the pattern for secrets are parameters. Trigger/Backoff and
--     Trusted have the proofs.
--   * Graph (Model, Cycles, Validate): src/dyro/graph.py. `cycles` is `_cycles`, `visit` its inner
--     function, with colours and stack in `Search`; `validate_task_graph` joins what its loops
--     append. Graph/Walks, Search, Steps, Loop, Acyclic and WellFormed have the proofs.
--   * Tasks (State, Dispatch, Claims, Wave): src/dyro/tasks.py. `Workspace` holds the files `status`
--     and `claim.json` of every task and the ledger; `Environment` what the operations read and do
--     not write. `may_follow` is TRANSITIONS, `is_gate` is QUALITY_GATE_STATUSES, `log` is `ledger`,
--     `claim_locked` the part of `claim_task` under the locks, `select_task` the body of the loop of
--     `select_task_wave`. Tasks/Gates, Exclusive, Claimed and WaveSafe have the proofs.
--   * Events (Model, Log): src/dyro/events.py. `read_locked_records` is `_read_locked_records`,
--     `append_to` the part of `append_event_locked` after its checks, `rotate` the renaming of a
--     full file. `lines_of` is what `splitlines` makes of the print of a record. The printed size of a record and the character sets are parameters; an append
--     takes the place at which the directory lists an archive that it makes. Events/Chunks, Appended,
--     Growth, Calls and Reads have the proofs.
--   * Console/Session: src/dyro/console/session.py. `new_store` is `__init__`, `show_secret` the
--     property `bootstrap_secret`. Console/Spec is an abstract specification with three phases;
--     Console/Refines and Once have the proofs.
--   * Prelude: shared names, lists, sorting and dictionaries. The Tests modules run the code on small
--     inputs.
--
-- Conventions. An identifier, a digest or a token is a number, 0 for the empty text, in the order of
-- the texts; an instant is a number of seconds; a summary, and the start of an owner's process, is the list of its code points. Python's
-- integers are natural numbers where the code refuses negative ones, and `max(0, a - b)` is the
-- subtraction that stops at 0. SHA-256 over canonical JSON is a parameter of whatever computes a
-- digest, and nothing is assumed of it. A missing key, a refused argument and a raised error are
-- constructors of a result type. Every loop goes through a list, but for `visit` of the task graph: it
-- has the number of tasks as fuel, and `cycles` is proved to answer with it; the interpreter's
-- own limit of recursion is not modelled. The length of a text and whether it is ASCII are
-- parameters where the code asks for them. The bounds of the code stand as they are: 128 receipts in a
-- cancellation, 512 code points in a summary, owner leases of 1 to 3600 seconds, claims of tasks of 1
-- to 604800, event files of 2097152 bytes.
--
-- Not modelled: reading and writing JSON, file locks and `fsync` (a file holds the record that was
-- written to it; a crash comes between two file writes or between the creation and the writing of a
-- new file; a replaced file is replaced in one step); the digests kept in ticks; the renderings for
-- text, JSON and Mermaid; the discovery of providers and the capability cards (parameters of the
-- peer wave); sampling of the workspace, Git and the clock; launching agents, gates, worktrees,
-- evidence, reviews and merges of tasks; creation, revision, pause and stop of an Objective; the
-- command line, the server of the console, the bridge, the host compiler, integrations, evidence and
-- signing.
pub mod Prelude
pub mod Budget
pub mod Journal
pub mod Planner
pub mod Objective
pub mod Console
pub mod Trigger
pub mod Graph
pub mod Tasks
pub mod Events
pub mod Engine
pub mod PeerWave
