-- ===== src/Tasks/Claimed.antt =====
-- What an answered `claim_task` of src/dyro/tasks.py has found and written, field by field.
use dyro_engineering_flow.Prelude.{
  some_injective, ℕ, ◌+◌, ◌≤◌, ◌≡◌, ◌≢◌, refl, sym, ap, subst, ◌∙◌, true, false, Option, none, some,
  List, [], ◌∷◌, arith, leb, ◌==◌, ==_iff, ==_refl, All, any,
}
use dyro_engineering_flow.Planner.Model.{
  Status, in_progress, waiting_answer, assigned, is_external, Task,
}
use dyro_engineering_flow.Graph.Model.{build_task_graph}
use dyro_engineering_flow.Graph.WellFormed.{WellFormed}
use dyro_engineering_flow.Tasks.State.{TaskClaim, Workspace, Environment, ok, at}
use dyro_engineering_flow.Tasks.Dispatch.{claim_active, conflicts}
use dyro_engineering_flow.Tasks.Claims.{new_claim, next_generation, target_of, stands, claim_task}
use dyro_engineering_flow.Tasks.Exclusive.{
  IsReady, claim_task_ok, claim_task-external, claim_task-answer,
}

-- Every claim there is has come to its end.
abbrev pub IsFree : Option TaskClaim → ℕ → Type 0
IsFree claim now =
    (c : TaskClaim) → claim ≡ some c → (end : ℕ) × (c.lease_expires_at ≡ some end) × (end ≤ now)

-- The other task of the group does not work and is not claimed.
abbrev pub IsQuiet : Workspace → ℕ → Task → Task → Type 0
IsQuiet w now t other =
    other.id ≢ t.id
    → other.conflict_group ≡ t.conflict_group
    → (w.statuses other.id ≢ in_progress)
      × (w.statuses other.id ≡ assigned → IsFree (w.claims other.id) now)

-- The number of the claims before.
abbrev pub generation_before : Option TaskClaim → ℕ
generation_before none = 0
generation_before (some c) = c.generation

-- The claim that is found afterwards.
pub record IsClaimOf (c : TaskClaim) (before : Option TaskClaim)
    (by with_key lease_seconds now drawn : ℕ) : Type 0 where
  pub claim_id : c.claim_id ≡ drawn
  pub runner : c.runner ≡ by
  pub key : c.execution_key_id ≡ with_key
  pub claimed : c.claimed_at ≡ now
  pub expires : c.lease_expires_at ≡ some (now + lease_seconds)
  pub generation : c.generation ≡ generation_before before + 1
  pub renewed : c.renewed_at ≡ none

new_claim-IsClaimOf :
    (before : Option TaskClaim) (runner key lease_seconds now claim_id : ℕ)
    → IsClaimOf
        (new_claim before runner key lease_seconds now claim_id)
        before
        runner
        key
        lease_seconds
        now
        claim_id
new_claim-IsClaimOf before runner key lease_seconds now claim_id = record {
  claim_id = refl;
  runner = refl;
  key = refl;
  claimed = refl;
  expires = refl;
  generation = next before;
  renewed = refl;
}
  where
    next : (x : Option TaskClaim) → next_generation x ≡ generation_before x + 1
    next none = refl
    next (some c) = refl

ends :
    (end : Option ℕ) (now : ℕ)
    → (elim end [ none ↦ false | some e ↦ leb e now ]) ≡ true
    → (e : ℕ) × (end ≡ some e) × (e ≤ now)
ends none now h = ground arith
ends (some e) now h = (e, refl, ground arith)

stands-IsFree : (claim : Option TaskClaim) (now : ℕ) → stands claim now ≡ false → IsFree claim now
stands-IsFree none now h c e = ground arith
stands-IsFree (some x) now h c e =
    subst (λ y. (end : ℕ) × (y.lease_expires_at ≡ some end) × (end ≤ now)) (some_injective e)
      (ends x.lease_expires_at now (ground arith))

claim_active-stands :
    (claim : Option TaskClaim) (now : ℕ) → claim_active claim now ≡ stands claim now
claim_active-stands none now = refl
claim_active-stands (some c) now = refl

module _ (env : Environment) (w : Workspace) (now : ℕ) (t : Task) where
  conflicts-IsQuiet :
      (other : Task)
      → is_external env.execution_mode ≡ true
      → conflicts env w now t other ≡ false
      → IsQuiet w now t other
  conflicts-IsQuiet other outside h elsewhere group = (
    λ works. let conflict : true ≡ false = rw (apart, grouped, works) at h in ground arith,
    λ waits. stands-IsFree (w.claims other.id) now (
        sym (claim_active-stands (w.claims other.id) now)
        ∙ rw (apart, grouped, waits, outside) at h),
  )
    where
      apart : (other.id == t.id) ≡ false
      apart = ground arith

      grouped : (other.conflict_group == t.conflict_group) ≡ true
      grouped = (==_iff _ _).1 group

  all-IsQuiet :
      (others : List Task)
      → is_external env.execution_mode ≡ true
      → any (conflicts env w now t) others ≡ false
      → All (IsQuiet w now t) others
  all-IsQuiet [] outside h = tt
  all-IsQuiet (o ∷ os) outside h =
      (conflicts-IsQuiet o outside (ground arith), all-IsQuiet os outside (ground arith))

module _ (env : Environment) (t : Task) (runner key lease_seconds now claim_id : ℕ)
    (w w' : Workspace) {st : Status} where
  -- A task is claimed only where each claim of it that there is has come to its end, the graph of all
  -- tasks is without faults, the dependencies are done and integrated, and no other task of its
  -- conflict group works or has a claim that runs on. The claim that is written is of the runner
  -- and the key, from now to the end of the lease, with the generation after the one before; a task
  -- that waits for an answer waits on and any other is assigned, and no other task changes.
  pub claim_task_claims :
      claim_task env t runner key lease_seconds now claim_id false w ≡ (ok st, w')
      → IsFree (w.claims t.id) now
        × WellFormed (build_task_graph env.tasks env.decisions none)
        × All (IsReady env t w) t.depends_on
        × (t.conflict_group ≢ 0 → All (IsQuiet w now t) env.tasks)
        × ((c : TaskClaim) × (w'.claims t.id ≡ some c)
            × IsClaimOf c (w.claims t.id) runner key lease_seconds now claim_id)
        × (w'.statuses t.id ≡ st)
        × (w.statuses t.id ≡ waiting_answer → st ≡ waiting_answer)
        × (w.statuses t.id ≢ waiting_answer → st ≡ assigned)
        × ((j : ℕ) → j ≢ t.id → (w'.claims j ≡ w.claims j) × (w'.statuses j ≡ w.statuses j))
  claim_task_claims h =
      let (free, graph, ready, alone, claim, status) =
        claim_task_ok env t runner key lease_seconds now claim_id w w' h in
      let outside = claim_task-external env t runner key lease_seconds now claim_id w w' h in
      let answer = claim_task-answer env t runner key lease_seconds now claim_id w w' h in
      let before = w.claims t.id in
      (
        stands-IsFree before now free,
        graph,
        ready,
        λ grouped. all-IsQuiet env w now t env.tasks outside (ground (arith, alone, grouped)),
        (
          new_claim before runner key lease_seconds now claim_id,
          claim t.id ∙ rw (==_refl t.id) refl,
          new_claim-IsClaimOf before runner key lease_seconds now claim_id,
        ),
        status t.id ∙ rw (==_refl t.id) refl,
        λ waits. answer ∙ ap target_of waits,
        λ other. answer ∙ assigned_else (w.statuses t.id) other,
        λ j other.
            (claim j ∙ elsewhere _ w.claims j other, status j ∙ elsewhere st w.statuses j other),
      )
    where
      assigned_else : (s : Status) → s ≢ waiting_answer → target_of s ≡ assigned
      assigned_else waiting_answer h = elim (h refl) [ ]
      assigned_else _ h = refl

      elsewhere : {A : Type 0} (a : A) (f : ℕ → A) (j : ℕ) → j ≢ t.id → at t.id a f j ≡ f j
      elsewhere a f j other = ground arith
