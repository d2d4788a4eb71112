-- ===== src/Objective/Granted.antt =====
-- The authority that an answered reservation of src/dyro/continuation/store.py has found, field by
-- field.
use dyro_engineering_flow.Prelude.{
  ◌≡◌, ◌≢◌, refl, true, false, not, Option, none, some, List, [], ◌∷◌, arith, ◌==◌, and_true, ap,
  ◌∙◌, some_injective, All, Any, any, member, select, inl, inr, Bool-cases,
}
use dyro_engineering_flow.Journal.Model.{
  ActionKind, execute_task, review_task, merge_task, uncertain, ActionIntent, ActionStart,
  ActionReceipt, ActionRecord, record_status,
}
use dyro_engineering_flow.Journal.Store.{ok, Directory}
use dyro_engineering_flow.Journal.Actions.{list_records}
use dyro_engineering_flow.Planner.Model.{
  RequestedMode, observe, is_observe, Operation, execute_operation, review_operation,
  merge_operation, operation_rank, OperatorState, active_state, is_active_state,
}
use dyro_engineering_flow.Objective.Authority.{
  StoredObjective, owns_mutation_scope, is_bound, grants, required_operation, is_uncertain,
  is_empty,
}

-- The guards, as the code has them.
pub record Guarded (stored : StoredObjective) (i : ActionIntent) (d : Directory) : Type 0 where
  pub owns : owns_mutation_scope stored ≡ true
  pub bound : is_bound stored i ≡ true
  pub inside : member i.subject_id stored.scope ≡ true
  pub granted : grants (required_operation i.operation) stored.objective.operations ≡ true
  pub resolved :
      (own : List ActionRecord) × (list_records d ≡ ok own)
      × (is_empty (select is_uncertain own) ≡ true)

-- The operation of a contract that covers an action.
abbrev pub Covers : ActionKind → Operation → Type 0
Covers execute_task execute_operation = Unit
Covers review_task review_operation = Unit
Covers merge_task merge_operation = Unit
Covers _ _ = ⊥

-- An action that was started has a receipt, and no receipt says that it is uncertain.
abbrev pub IsResolved : ActionRecord → Type 0
IsResolved r =
    (r.receipt ≡ none → r.start ≡ none)
    × ((v : ActionReceipt) → r.receipt ≡ some v → v.status ≢ uncertain)

pub record Authority (stored : StoredObjective) (i : ActionIntent) (d : Directory) : Type 0 where
  pub is_active : stored.operator_state ≡ active_state
  pub acts : stored.objective.requested_mode ≢ observe
  pub objective : i.objective_id ≡ stored.objective.id
  pub revision : i.objective_revision ≡ stored.revision
  pub event : i.objective_event_seq ≡ stored.event_seq
  pub event_digest : i.objective_event_sha256 ≡ stored.event_sha256
  pub scope_digest : i.scope_sha256 ≡ stored.scope_sha256
  pub inside : member i.subject_id stored.scope ≡ true
  pub granted :
      (o : Operation) × Covers i.operation o × Any (λ p. p ≡ o) stored.objective.operations
  pub resolved : (own : List ActionRecord) × (list_records d ≡ ok own) × All IsResolved own

active_lem : (a : OperatorState) → is_active_state a ≡ true → a ≡ active_state
active_lem active_state h = refl
active_lem _ h = ground arith

acts_lem : (m : RequestedMode) → not (is_observe m) ≡ true → m ≢ observe
acts_lem observe h e = ground arith
acts_lem _ h e = ground arith

rank_injective : (p o : Operation) → (operation_rank p == operation_rank o) ≡ true → p ≡ o
rank_injective execute_operation execute_operation h = refl
rank_injective review_operation review_operation h = refl
rank_injective merge_operation merge_operation h = refl
rank_injective _ _ h = ground arith

any-Any :
    (o : Operation) (ps : List Operation)
    → any (λ p. operation_rank p == operation_rank o) ps ≡ true
    → Any (λ p. p ≡ o) ps
any-Any o [] h = ground arith
any-Any o (p ∷ ps) h = elim (Bool-cases (operation_rank p == operation_rank o)) [
  | inl e ↦ inl (rank_injective p o e)
  | inr e ↦ inr (any-Any o ps (ground arith))
]

grants_lem :
    (k : ActionKind) (ps : List Operation)
    → grants (required_operation k) ps ≡ true
    → (o : Operation) × Covers k o × Any (λ p. p ≡ o) ps
grants_lem execute_task ps h = (execute_operation, tt, any-Any execute_operation ps h)
grants_lem review_task ps h = (review_operation, tt, any-Any review_operation ps h)
grants_lem merge_task ps h = (merge_operation, tt, any-Any merge_operation ps h)
grants_lem _ ps h = ground arith

resolved_lem : (r : ActionRecord) → is_uncertain r ≡ false → IsResolved r
unfolding record_status
resolved_lem r h = by r.start r.receipt h
  where
    by :
        (s : Option ActionStart) (v : Option ActionReceipt)
        → is_uncertain (record r { start = s; receipt = v }) ≡ false
        → (v ≡ none → s ≡ none) × ((x : ActionReceipt) → v ≡ some x → x.status ≢ uncertain)
    by none none k = (λ e. refl, λ x e u. ground arith)
    by (some s) none k = ground arith
    by s (some v) k = (
      λ e. ground arith,
      λ x e u.
          let status : v.status ≡ uncertain = ap (λ y. y.status) (some_injective e) ∙ u in
          let never : true ≡ false = rw status at k in ground arith,
    )

all-IsResolved :
    (rs : List ActionRecord) → is_empty (select is_uncertain rs) ≡ true → All IsResolved rs
all-IsResolved [] h = tt
all-IsResolved (r ∷ rs) h = (resolved_lem r (ground arith), all-IsResolved rs (ground arith))

pub Guarded-Authority :
    (stored : StoredObjective) (i : ActionIntent) (d : Directory)
    → Guarded stored i d
    → Authority stored i d
Guarded-Authority stored i d g =
    let (active, acts) = and_true g.owns in
    let bound = g.bound in
    let (own, listed, none_open) = g.resolved in
    record {
      is_active = active_lem stored.operator_state active;
      acts = acts_lem stored.objective.requested_mode acts;
      objective = ground arith;
      revision = ground arith;
      event = ground arith;
      event_digest = ground arith;
      scope_digest = ground arith;
      inside = g.inside;
      granted = grants_lem i.operation stored.objective.operations g.granted;
      resolved = (own, listed, all-IsResolved own none_open);
    }
