-- ===== src/Prelude/Filters.antt =====
-- What holds of all of a list, through sorting and filtering.
use mathlib.Core.Path.{◌≡◌, refl}
use mathlib.Core.Logic.{◌↔◌, inl, inr}
use mathlib.Core.Bool.{Bool, true, false}
use mathlib.Core.List.{List, [], ◌∷◌, map}
use native.Mathlib.Omega.{arith}
use dyro_engineering_flow.Prelude.Tests.{if◌then◌else◌, Bool-cases}
use dyro_engineering_flow.Prelude.Lists.{All, select}
use dyro_engineering_flow.Prelude.Sort.{insert_by, sort_by, All-sort_by}

module _ {ℓ} {A : Type ℓ} where
  module _ (le : A → A → Bool) where
    All-unsorted_one :
        (P : A → Type 0) (x : A) (xs : List A) → All P (insert_by le x xs) → P x × All P xs
    unfolding insert_by
    All-unsorted_one P x [] h = h
    All-unsorted_one P x (y ∷ ys) h =
        by (le x y) (insert_by le x ys) (λ k. All-unsorted_one P x ys k) h
      where
        by :
            (b : Bool) (rest : List A)
            → (All P rest → P x × All P ys)
            → All P (if b then x ∷ y ∷ ys else y ∷ rest)
            → P x × (P y × All P ys)
        by true rest f (h, k) = (h, k)
        by false rest f (h, k) = ((f k).0, (h, (f k).1))

    All-unsorted : (P : A → Type 0) (xs : List A) → All P (sort_by le xs) → All P xs
    unfolding sort_by
    All-unsorted P [] h = tt
    All-unsorted P (x ∷ xs) h =
        let (a, rest) = All-unsorted_one P x (sort_by le xs) h in (a, All-unsorted P xs rest)

    pub All-sort_iff : (P : A → Type 0) (xs : List A) → All P (sort_by le xs) ↔ All P xs
    All-sort_iff P xs = (All-unsorted P xs, All-sort_by le P xs)

    insert_by-cons : (x : A) (xs : List A) → insert_by le x xs ≡ [] → ⊥
    unfolding insert_by
    insert_by-cons x [] h = ground arith
    insert_by-cons x (y ∷ ys) h = ground arith

    pub sort_by-eq-nil : (xs : List A) → (sort_by le xs ≡ []) ↔ (xs ≡ [])
    unfolding sort_by
    sort_by-eq-nil [] = (λ h. refl, λ h. refl)
    sort_by-eq-nil (x ∷ xs) =
        (λ h. elim (insert_by-cons x (sort_by le xs) h) [ ], λ h. ground arith)

  pub select-eq-nil : (p : A → Bool) (xs : List A) → (select p xs ≡ []) ↔ All (λ x. p x ≡ false) xs
  select-eq-nil p [] = (λ h. tt, λ h. refl)
  select-eq-nil p (x ∷ xs) =
      let (from, to) = select-eq-nil p xs in
      elim (Bool-cases (p x)) [
        | inl e ↦ (λ h. ground arith, λ (h, _). ground arith)
        | inr e ↦ (λ h. (e, from (ground arith)), λ (_, hs). rw e (to hs))
      ]

  pub All-map-select :
      {B : Type 0} (Q : B → Type 0) (f : A → B) (p : A → Bool) (xs : List A)
      → All Q (map f (select p xs)) ↔ All (λ x. p x ≡ true → Q (f x)) xs
  All-map-select Q f p [] = (λ h. tt, λ h. tt)
  All-map-select Q f p (x ∷ xs) =
      let (from, to) = All-map-select Q f p xs in
      elim (Bool-cases (p x)) [
        | inl e ↦ rw e (λ (h, hs). (λ _. h, from hs), λ (h, hs). (h refl, to hs))
        | inr e ↦ rw e (λ hs. (λ k. ground arith, from hs), λ (_, hs). to hs)
      ]
