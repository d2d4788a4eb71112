-- ===== src/Tasks/Tests.antt =====
-- Two runners and three tasks: a claim, its release, a review that is skipped and a wave.
use dyro_engineering_flow.Prelude.{
  ℕ, ◌≡◌, ◌≢◌, ◌+◌, ◌≤◌, refl, true, false, none, some, List, [], ◌∷◌, All, ◌==◌, length, arith,
  Pairwise, sum_by, if◌then◌else◌,
}
use dyro_engineering_flow.Planner.Model.{
  waiting_answer, backlog, assigned, in_progress, done, external, Task,
}
use dyro_engineering_flow.Graph.Tests.{task_on}
use dyro_engineering_flow.Graph.Model.{build_task_graph}
use dyro_engineering_flow.Graph.WellFormed.{WellFormed}
use dyro_engineering_flow.Tasks.State.{
  TaskClaim, Workspace, Environment, already_claimed, ok, err, at,
}
use dyro_engineering_flow.Tasks.Dispatch.{set_status, set_quality_gate_status}
use dyro_engineering_flow.Tasks.Claims.{claim_task, release_task_claim}
use dyro_engineering_flow.Tasks.Gates.{
  Command, claim, set, pass_gate, run, run_all, Unreviewed, run_all-Unreviewed,
}
use dyro_engineering_flow.Tasks.Exclusive.{IsReady, claim_task_exclusive, claim-release}
use dyro_engineering_flow.Tasks.Claimed.{IsFree, IsQuiet, IsClaimOf, claim_task_claims}
use dyro_engineering_flow.Tasks.Wave.{select_task_wave}
use dyro_engineering_flow.Tasks.WaveSafe.{MayJoin, Explained, select_task_wave-IsSafe}

abbrev first_task : Task
first_task = task_on 1 1 []

abbrev second_task : Task
second_task = record (task_on 2 1 (1 ∷ [])) { conflict_group = 5 }

abbrev third_task : Task
third_task = record (task_on 3 1 []) { conflict_group = 5 }

abbrev env : Environment
env = record {
  tasks = first_task ∷ second_task ∷ third_task ∷ [];
  decisions = [];
  execution_mode = external;
  external_security = true;
  require_signed_execution = true;
  require_external_signoff = false;
  trusted_key = λ k. k == 7;
  key_principal = λ k. 40;
  dependency_integrated = λ d. true;
  line_on_branch = λ d. true;
  valid_external_signoff = λ d. false;
  event_appended = λ d a b. true;
}

-- The first task is done, the others wait.
abbrev waiting : Workspace
waiting = record {
  statuses = λ j. if j == 1 then done else backlog;
  claims = λ j. none;
  ledger = [];
}

abbrev claimed : Workspace
claimed = (claim_task env second_task 40 7 60 1000 9 false waiting).1

abbrev released : Workspace
released = (release_task_claim env second_task 40 false claimed).1

claim_answers : claim_task env second_task 40 7 60 1000 9 false waiting ≡ (ok assigned, claimed)
unfolding claim_task
claim_answers = refl

claim_again : (claim_task env second_task 40 7 60 1059 10 false claimed).0 ≡ err already_claimed
unfolding claim_task
claim_again = refl

claim_later : (claim_task env second_task 40 7 60 1060 10 false claimed).0 ≡ ok assigned
unfolding claim_task
claim_later = refl

release_answers : release_task_claim env second_task 40 false claimed ≡ (ok backlog, released)
unfolding claim_task release_task_claim
release_answers = refl

claim_task_claims_example :
    IsFree (waiting.claims 2) 1000
    × WellFormed (build_task_graph env.tasks env.decisions none)
    × All (IsReady env second_task waiting) (1 ∷ [])
    × (second_task.conflict_group ≢ 0 → All (IsQuiet waiting 1000 second_task) env.tasks)
    × ((c : TaskClaim) × (claimed.claims 2 ≡ some c) × IsClaimOf c none 40 7 60 1000 9)
    × (claimed.statuses 2 ≡ assigned)
    × (backlog ≡ waiting_answer → assigned ≡ waiting_answer)
    × (backlog ≢ waiting_answer → assigned ≡ assigned)
    × ((j : ℕ)
        → j ≢ 2
        → (claimed.claims j ≡ waiting.claims j) × (claimed.statuses j ≡ waiting.statuses j))
claim_task_claims_example =
    claim_task_claims env second_task 40 7 60 1000 9 waiting claimed claim_answers

claim_task_exclusive_example :
    claim_task env second_task 40 7 60 1059 10 false claimed
    ≢ (ok assigned, (claim_task env second_task 40 7 60 1059 10 false claimed).1)
claim_task_exclusive_example =
    claim_task_exclusive env second_task 40 7 60 1000 9 waiting claimed 40 7 60 1059 10 false
      (claim_task env second_task 40 7 60 1059 10 false claimed).1 claim_answers (omega arith)

claim-release_example :
    (backlog ≡ backlog)
    × ((j : ℕ) → released.statuses j ≡ waiting.statuses j)
    × ((j : ℕ) → released.claims j ≡ at 2 none waiting.claims j)
claim-release_example =
    claim-release env second_task 40 7 60 1000 9 waiting claimed refl claim_answers release_answers

-- A claim, an attempt to go straight to `done`, and a gate that is passed too early.
abbrev commands : List Command
commands =
    claim second_task 40 7 60 1000 9 false
    ∷ set 2 in_progress false false
    ∷ set 2 done true false
    ∷ pass_gate 2 done false
    ∷ []

commands_run : (run_all env commands waiting).statuses 2 ≡ in_progress
unfolding run_all run claim_task set_status set_quality_gate_status
commands_run = refl

run_all-Unreviewed_example : Unreviewed 2 (run_all env commands waiting)
run_all-Unreviewed_example =
    run_all-Unreviewed env 2 commands waiting (refl, (refl, (refl, (refl, tt)))) refl

select_task_wave-IsSafe_example :
    (length (select_task_wave env.tasks 2).tasks ≤ 2)
    × Pairwise MayJoin (select_task_wave env.tasks 2).tasks
    × All (Explained 2 (select_task_wave env.tasks 2).tasks) (select_task_wave env.tasks 2).deferred
    × (sum_by (λ t. t.id) (select_task_wave env.tasks 2).tasks
          + sum_by (λ d. d.task.id) (select_task_wave env.tasks 2).deferred
        ≡ sum_by (λ t. t.id) env.tasks)
select_task_wave-IsSafe_example = select_task_wave-IsSafe env.tasks 2 (λ t. t.id)
