-- ===== src/Objective/Charged.antt =====
-- What the actions of one journal charge to their Objective, for the accounting of
-- src/dyro/continuation/store.py: a sum over the intents, which a start does not change, a receipt
-- never raises and a new intent raises by its reservation.
use dyro_engineering_flow.Prelude.{
  All-weaken, subst, ℕ, ◌+◌, ◌≤◌, ◌≡◌, ◌≢◌, refl, ap, Bool, true, false, ◌&&◌, inl, inr, Option,
  none, some, List, [], ◌∷◌, arith, ◌==◌, sum_by, is_some, if◌then◌else◌, All,
}
use native.Mathlib.Decide.{ℕ_discrete}
use dyro_engineering_flow.Prelude.Dict.{
  Dict, lookup, create, keys, lookup-create_self, lookup-create_ne,
}
use dyro_engineering_flow.Budget.Model.{BudgetReservation}
use dyro_engineering_flow.Journal.Model.{ActionIntent, ActionStart, ActionReceipt, ActionRecord}
use dyro_engineering_flow.Journal.Store.{ok, err, Directory}
use dyro_engineering_flow.Journal.Actions.{read_record, read_all, list_records}
use dyro_engineering_flow.Journal.Sound.{read_record_lem}
use dyro_engineering_flow.Journal.Keeps.{Result-cases}

module _ {A : Type 0} (f g : A → ℕ) where
  pub sum_by-le : (xs : List A) → ((x : A) → f x ≤ g x) → sum_by f xs ≤ sum_by g xs
  sum_by-le [] h = omega arith
  sum_by-le (x ∷ xs) h = omega (arith, h x, sum_by-le xs h)

  pub sum_by-same : (xs : List A) → All (λ x. f x ≡ g x) xs → sum_by f xs ≡ sum_by g xs
  sum_by-same [] h = refl
  sum_by-same (x ∷ xs) (h, hs) = omega (arith, h, sum_by-same xs hs)

module _ {V : Type 0} where
  pub sum_by-create :
      (f : ℕ → ℕ) (k : ℕ) (v : V) (d : Dict V)
      → sum_by f (keys (create k v d)) ≡ f k + sum_by f (keys d)
  unfolding create
  sum_by-create f k v [] = refl
  sum_by-create f k v ((j, w) ∷ d) = ground (arith, sum_by-create f k v d)

  pub keys-other : (k : ℕ) (d : Dict V) → lookup k d ≡ none → All (λ j. k ≢ j) (keys d)
  keys-other k [] h = tt
  keys-other k ((j, w) ∷ d) h = (ground arith, keys-other k d (ground arith))

-- A way to count actions: it may ask whether they are started and whether they have a receipt, and
-- what has no receipt counts no less than what has one, started or not.
pub record IsCount (counts : Bool → Bool → Bool) : Type 0 where
  pub received : (s : Bool) → counts s true ≡ true → counts s false ≡ true
  pub started : counts true false ≡ true → counts false false ≡ true

module _ (counts : Bool → Bool → Bool) (f : BudgetReservation → ℕ) (o : ℕ) where
  -- What an action charges to the Objective `o`.
  abbrev pub charge_of : Option ActionIntent → Option ActionStart → Option ActionReceipt → ℕ
  charge_of none s r = 0
  charge_of (some i) s r =
      if i.objective_id == o
        && (i.budget_reservation.objective_id == o && counts (is_some s) (is_some r))
      then f i.budget_reservation
      else 0

  abbrev pub charge : ActionRecord → ℕ
  charge r = charge_of (some r.intent) r.start r.receipt

  abbrev pub charge_at : Directory → ℕ → ℕ
  charge_at d k = charge_of (lookup k d.intents) (lookup k d.starts) (lookup k d.receipts)

  abbrev pub charged : Directory → ℕ
  charged d = sum_by (charge_at d) (keys d.intents)

  read_all-charged :
      (ks : List ℕ) (d : Directory) {rs : List ActionRecord}
      → read_all ks d ≡ ok rs
      → sum_by charge rs ≡ sum_by (charge_at d) ks
  unfolding read_all
  read_all-charged [] d {rs} h = let same : rs ≡ [] = ground arith in rw same refl
  read_all-charged (k ∷ ks) d {rs} h = elim (Result-cases (read_record k d)) [
    | inr (x, e) ↦ let never : err x ≡ ok rs = rw (e, read_all) at h in ground arith
    | inl (r, e) ↦ elim (Result-cases (read_all ks d)) [
      | inr (x, e') ↦ let never : err x ≡ ok rs = rw (e, e', read_all) at h in ground arith
      | inl (rs', e') ↦
          let same : ok (r ∷ rs') ≡ ok rs = rw (e, e', read_all) at h in
          let (a, b, c, _) = read_record_lem k d e in
          let both : rs ≡ r ∷ rs' = ground arith in
          rw (both, a, b, c) (ap (λ n. charge r + n) (read_all-charged ks d e'))
    ]
  ]

  pub list_records-charged :
      (d : Directory) {rs : List ActionRecord}
      → list_records d ≡ ok rs
      → sum_by charge rs ≡ charged d
  unfolding list_records
  list_records-charged d h = read_all-charged (keys d.intents) d (ground arith)

  module _ (c : IsCount counts) where
    charge_of-received :
        (i : Option ActionIntent) (s : Option ActionStart) (v : ActionReceipt)
        → charge_of i s (some v) ≤ charge_of i s none
    charge_of-received none s v = omega arith
    charge_of-received (some i) s v = ground (arith, c.received (is_some s))

    charge_of-started :
        (i : Option ActionIntent) (s : Option ActionStart) (v : ActionStart)
        → charge_of i (some v) none ≤ charge_of i s none
    charge_of-started none s v = omega arith
    charge_of-started (some i) none v = ground (arith, c.started)
    charge_of-started (some i) (some _) v = omega arith

  module _ (c : IsCount counts) (d : Directory) (k : ℕ) where
    pub charged-receipt :
        (v : ActionReceipt)
        → lookup k d.receipts ≡ none
        → charged (record d { receipts = create k v d.receipts }) ≤ charged d
    charged-receipt v absent = sum_by-le _ _ (keys d.intents) λ x. elim (ℕ_discrete k x) [
      | yes e ↦
          subst (λ j. charge_at (record d { receipts = create k v d.receipts }) j ≤ charge_at d j) e
            (rw (lookup-create_self k v d.receipts absent, absent)
              (charge_of-received c (lookup k d.intents) (lookup k d.starts) v))
      | no ne ↦ rw (lookup-create_ne x k v d.receipts ne) (omega arith)
    ]

    pub charged-start :
        (v : ActionStart)
        → lookup k d.starts ≡ none
        → lookup k d.receipts ≡ none
        → charged (record d { starts = create k v d.starts }) ≤ charged d
    charged-start v fresh absent = sum_by-le _ _ (keys d.intents) λ x. elim (ℕ_discrete k x) [
      | yes e ↦
          subst (λ j. charge_at (record d { starts = create k v d.starts }) j ≤ charge_at d j) e
            (rw (lookup-create_self k v d.starts fresh, absent)
              (charge_of-started c (lookup k d.intents) (lookup k d.starts) v))
      | no ne ↦ rw (lookup-create_ne x k v d.starts ne) (omega arith)
    ]

    pub charged-intent :
        (v : ActionIntent)
        → lookup k d.intents ≡ none
        → charged (record d { intents = create k v d.intents }) ≤ charged d + f v.budget_reservation
    charged-intent v absent =
        let e = record d { intents = create k v d.intents } in
        let rest = sum_by-same (charge_at e) (charge_at d) (keys d.intents) (
          All-weaken (λ j. k ≢ j) (λ j. charge_at e j ≡ charge_at d j) (keys d.intents)
            (λ j ne. rw (lookup-create_ne j k v d.intents ne) refl)
            (keys-other k d.intents absent)) in
        omega (arith, sum_by-create (charge_at e) k v d.intents, rest, own)
      where
        own : charge_at (record d { intents = create k v d.intents }) k ≤ f v.budget_reservation
        own = rw (lookup-create_self k v d.intents absent) (ground arith)
