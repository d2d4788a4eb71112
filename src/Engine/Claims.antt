-- ===== src/Engine/Claims.antt =====
-- The resources that are claimed in the loop of `build_scheduler_tick` of
-- src/dyro/continuation/engine.py.
use dyro_engineering_flow.Prelude.{
  ℕ, ◌≡◌, refl, sym, ap, subst, ◌∙◌, Bool, true, false, ◌||◌, ◌⊎◌, inr, Option, none, some, List,
  [], ◌∷◌, arith, ==_iff, and_true, any, is_some,
}
use dyro_engineering_flow.Engine.Tick.{
  Resource, class_of, value_of, same_resource, holder, collision, claim_all,
}

-- Some claim of the list is `r`.
abbrev pub has : Resource → List Resource → Bool
has r claims = any (λ c. same_resource c r) claims

pub or_right : (a : Bool) {b : Bool} → b ≡ true → (a || b) ≡ true
or_right a h = ground arith

pub or_left : (b : Bool) {a : Bool} → a ≡ true → (a || b) ≡ true
or_left b h = ground arith

pub none_some : (o : Option ℕ) (b : Bool) → o ≡ none → is_some o ≡ true → b ≡ false
none_some o b h k = ground arith

same_resource_refl : (r : Resource) → same_resource r r ≡ true
same_resource_refl r = ground arith

same_resource-holder :
    (taken : List (Resource × ℕ)) (r c : Resource)
    → same_resource c r ≡ true
    → holder taken r ≡ holder taken c
same_resource-holder [] r c h = refl
same_resource-holder ((t, subject) ∷ rest) r c h =
    let a = (==_iff (class_of c) (class_of r)).0 (and_true h).0 in
    let b = (==_iff (value_of c) (value_of r)).0 (and_true h).1 in
    rw (a, b, same_resource-holder rest r c h) refl

-- Without a collision none of the claims is taken.
pub collision-none :
    (taken : List (Resource × ℕ)) (claims : List Resource) (r : Resource)
    → collision taken claims ≡ none
    → has r claims ≡ true
    → holder taken r ≡ none
collision-none taken [] r free h = ground arith
collision-none taken (c ∷ cs) r free h =
    let rest = collision-none taken cs r in
    let same = same_resource-holder taken r c in ground arith

pub collision-some :
    (taken : List (Resource × ℕ)) (claims : List Resource) (c : Resource) (subject : ℕ)
    → collision taken claims ≡ some (c, subject)
    → (holder taken c ≡ some subject) × (has c claims ≡ true)
collision-some taken [] c subject h = ground arith
collision-some taken (d ∷ ds) c subject h =
    at (λ k. collision-some taken ds c subject k) (holder taken d) refl h
  where
    at :
        (collision taken ds ≡ some (c, subject)
          → (holder taken c ≡ some subject) × (has c ds ≡ true))
        → (o : Option ℕ) → holder taken d ≡ o
        → elim o [ some s ↦ some (d, s) | none ↦ collision taken ds ] ≡ some (c, subject)
        → (holder taken c ≡ some subject) × (has c (d ∷ ds) ≡ true)
    at rest none e k = let (held, claimed) = rest k in (held, or_right _ claimed)
    at rest (some s) e k =
        let same : d ≡ c = ap claim k in
        let by : s ≡ subject = ap holding k in
        (
          ap (holder taken) (sym same) ∙ e ∙ ap some by,
          subst (λ x. (same_resource x c || has c ds) ≡ true) (sym same)
              (rw (same_resource_refl c) refl),
        )
      where
        claim : Option (Resource × ℕ) → Resource
        claim none = d
        claim (some x) = x.0

        holding : Option (Resource × ℕ) → ℕ
        holding none = s
        holding (some x) = x.1

pub claim_all-holder :
    (subject : ℕ) (claims : List Resource) (taken : List (Resource × ℕ)) (r : Resource) (s : ℕ)
    → holder (claim_all subject claims taken) r ≡ some s
    → ((has r claims ≡ true) × (s ≡ subject)) ⊎ (holder taken r ≡ some s)
claim_all-holder subject [] taken r s h = inr h
claim_all-holder subject (c ∷ cs) taken r s h =
    let rest = claim_all-holder subject cs ((c, subject) ∷ taken) r s h in ground arith

pub claim_all-held :
    (subject : ℕ) (claims : List Resource) (taken : List (Resource × ℕ)) (r : Resource)
    → (has r claims || is_some (holder taken r)) ≡ true
    → is_some (holder (claim_all subject claims taken) r) ≡ true
claim_all-held subject [] taken r h = h
claim_all-held subject (c ∷ cs) taken r h =
    claim_all-held subject cs ((c, subject) ∷ taken) r (ground arith)
