-- ===== src/Objective/Authorized.antt =====
-- What an answered reservation of src/dyro/continuation/store.py has found.
use dyro_engineering_flow.Objective.Granted.{Guarded, Authority, Guarded-Authority}
use dyro_engineering_flow.Objective.Admission.{Admitted, decide-Admitted}
use dyro_engineering_flow.Prelude.{
  ℕ, ◌≡◌, refl, Bool, true, false, inl, inr, Option, List, ◌++◌, arith, select,
}
use dyro_engineering_flow.Budget.Decide.{BudgetDecision}
use dyro_engineering_flow.Journal.Model.{ActionIntent, ActionRecord, OwnerLeaseGrant}
use dyro_engineering_flow.Journal.Store.{
  JournalError, Result, ok, err, Directory, reads, M, ◌>>=◌, ◌>>◌, continue, guard,
}
use dyro_engineering_flow.Journal.Actions.{list_records}
use dyro_engineering_flow.Journal.Keeps.{Result-cases}
use dyro_engineering_flow.Objective.Authority.{
  StoredObjective, is_uncertain, is_empty, assert_no_unresolved_actions,
}
use dyro_engineering_flow.Objective.Reserve.{
  Others, check_authority, decide, reserve_supervised_action,
}

-- A call that answers has answered at each of its parts.
bind_ok :
    {A B : Type 0} (m : M A) (f : A → M B) (d : Directory) {b : B}
    → ((m >>= f) d).0 ≡ ok b
    → (a : A) × ((m d).0 ≡ ok a) × ((f a (m d).1).0 ≡ ok b)
unfolding ◌>>=◌
bind_ok m f d {b} h = elim (Result-cases (m d).0) [
  | inl (a, e) ↦ (a, e, rw (e, continue) at h)
  | inr (x, e) ↦ let never : err x ≡ ok b = rw (e, continue) at h in ground arith
]

module _ {B : Type 0} (f : Unit {0} → M B) (d : Directory) {x : B} where
  -- Guards that let a call go on.
  guard_ok :
      (b : Bool) (e : JournalError)
      → ((guard b e >>= f) d).0 ≡ ok x
      → (b ≡ true) × ((f tt d).0 ≡ ok x)
  unfolding ◌>>=◌
  guard_ok true e h = (refl, h)
  guard_ok false e h = let never : err e ≡ ok x = h in ground arith

  two_guards_ok :
      (b c : Bool) (e e' : JournalError)
      → (((guard b e >> guard c e') >>= f) d).0 ≡ ok x
      → (b ≡ true) × (c ≡ true) × ((f tt d).0 ≡ ok x)
  unfolding ◌>>=◌
  two_guards_ok true true e e' h = (refl, refl, h)
  two_guards_ok true false e e' h = let never : err e' ≡ ok x = h in ground arith
  two_guards_ok false c e e' h = let never : err e ≡ ok x = h in ground arith

  three_guards_ok :
      (b c a : Bool) (e e' e'' : JournalError)
      → (((guard b e >> (guard c e' >> guard a e'')) >>= f) d).0 ≡ ok x
      → (b ≡ true) × (c ≡ true) × (a ≡ true) × ((f tt d).0 ≡ ok x)
  unfolding ◌>>=◌
  three_guards_ok true true true e e' e'' h = (refl, refl, refl, h)
  three_guards_ok true true false e e' e'' h = let never : err e'' ≡ ok x = h in ground arith
  three_guards_ok true false a e e' e'' h = let never : err e' ≡ ok x = h in ground arith
  three_guards_ok false c a e e' e'' h = let never : err e ≡ ok x = h in ground arith

module _ {A B : Type 0} (g : Directory → Result A) (d : Directory) {x : B} where
  reads_ok :
      (f : A → M B) → ((reads g >>= f) d).0 ≡ ok x → (a : A) × (g d ≡ ok a) × ((f a d).0 ≡ ok x)
  unfolding ◌>>=◌
  reads_ok f h = elim (Result-cases (g d)) [
    | inl (a, e) ↦ (a, e, rw (e, continue) at h)
    | inr (y, e) ↦ let never : err y ≡ ok x = rw (e, continue) at h in ground arith
  ]

only_guard_ok :
    (b : Bool) (e : JournalError) (d : Directory) {u : Unit {0}} → (guard b e d).0 ≡ ok u → b ≡ true
unfolding ◌>>=◌
only_guard_ok true e d h = refl
only_guard_ok false e d {u} h = let never : err e ≡ ok u = h in ground arith

no_unresolved_ok :
    (d : Directory) {u : Unit {0}}
    → (assert_no_unresolved_actions d).0 ≡ ok u
    → (own : List ActionRecord) × (list_records d ≡ ok own)
      × (is_empty (select is_uncertain own) ≡ true)
unfolding assert_no_unresolved_actions
no_unresolved_ok d e =
    let (own, listed, e') = reads_ok list_records d _ e in (own, listed, only_guard_ok _ _ d e')

module _ (token_digest : ℕ → ℕ) (stored : StoredObjective) (i : ActionIntent) (g : OwnerLeaseGrant)
    (now : ℕ) where
  check_authority_ok :
      (d : Directory) {u : Unit {0}}
      → (check_authority token_digest stored i g now d).0 ≡ ok u
      → Guarded stored i d
  unfolding check_authority
  check_authority_ok d h =
      let (_, owns, h1) = two_guards_ok _ d _ _ _ _ h in
      let (bound, inside, granted, h2) = three_guards_ok _ d _ _ _ _ _ _ h1 in
      let (_, e, _) = bind_ok assert_no_unresolved_actions _ d h2 in
      record {
        owns = owns;
        bound = bound;
        inside = inside;
        granted = granted;
        resolved = no_unresolved_ok d e;
      }

  -- A supervised reservation answers only where the stored Objective is active and does not only
  -- observe, the intent names its revision, its last event and its scope, the subject lies in the
  -- scope, the contract lists the operation that covers the action, every action of the journal
  -- that was started has a receipt and none is uncertain, and the actions and the parallel actions
  -- of the Objective, with those that the intent asks for, stay within the limits of the contract.
  pub reserve_supervised-Authority :
      (others : Result Others) (provider_cap : Option ℕ) (trusted is_automatic : Bool)
      (d : Directory) {answer : ActionRecord × BudgetDecision}
      → (reserve_supervised_action token_digest stored others i g provider_cap trusted now
          is_automatic d).0
        ≡ ok answer
      → Authority stored i d
        × (before : List ActionRecord) × (own : List ActionRecord) × (after : List ActionRecord)
        × (others ≡ ok (before, after))
        × (list_records d ≡ ok own)
        × Admitted stored i (before ++ (own ++ after))
  unfolding reserve_supervised_action
  reserve_supervised-Authority others provider_cap trusted is_automatic d h =
      let (own, listed, h1) = reads_ok list_records d _ h in
      let ((before, after), other, h2) = reads_ok (λ _. others) d _ h1 in
      let (_, checked, h3) = bind_ok (check_authority token_digest stored i g now) _ d h2 in
      let (decision, decided, _) =
        reads_ok
          (λ _. decide stored i (before ++ (own ++ after)) provider_cap trusted now is_automatic) _
          _ h3 in
      (
        Guarded-Authority stored i d (check_authority_ok d checked),
        before,
        own,
        after,
        other,
        listed,
        decide-Admitted stored i (before ++ (own ++ after)) provider_cap trusted now is_automatic
            decided,
      )
