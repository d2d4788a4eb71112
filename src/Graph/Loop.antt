-- ===== src/Graph/Loop.antt =====
-- The recursion of `_cycles` in src/dyro/graph.py ends with fuel for the tasks that are white.
use dyro_engineering_flow.Prelude.{
  absurd_bool, ℕ, zero, suc, ◌+◌, ◌≤◌, ◌≡◌, refl, sym, ap, subst, ◌∙◌, true, false, Option, some,
  List, [], ◌∷◌, arith, ◌==◌, ==_iff, ==_refl, member, sum_by, ◌⊎◌, if◌then◌else◌, Bool-cases, inl,
  inr,
}
use dyro_engineering_flow.Graph.Cycles.{
  Color, white, visiting, visited, Search, paint, close_cycle, follow, follow_all, enter, leave,
  visit, visit_all, is_white,
}
use dyro_engineering_flow.Graph.Walks.{Edge, Links, Links-snoc}
use dyro_engineering_flow.Graph.Search.{
  is_visiting, is_visited, Inv, Later, Later-refl, Later-trans, Done, close-Done,
}
use dyro_engineering_flow.Graph.Steps.{paint_ne, enter-Inv, leave-Done}

-- How many of `ids` are white.
abbrev pub whites : List ℕ → (ℕ → Color) → ℕ
whites ids colors = sum_by (λ k. if is_white (colors k) then 1 else 0) ids

pub whites-le :
    (ids : List ℕ) (a b : ℕ → Color)
    → ((j : ℕ) → is_white (b j) ≡ true → is_white (a j) ≡ true)
    → whites ids b ≤ whites ids a
whites-le [] a b h = omega arith
whites-le (k ∷ ks) a b h =
    let rest = whites-le ks a b h in
    elim (Bool-cases (is_white (b k))) [
      | inl e ↦ let e' = h k e in rw (e, e') (omega (arith, rest))
      | inr e ↦ rw e (omega (arith, rest))
    ]

paint_white :
    (colors : ℕ → Color) (k j : ℕ)
    → is_white (paint colors k visiting j) ≡ true
    → is_white (colors j) ≡ true
paint_white colors k j h = elim (Bool-cases (j == k)) [
  | inl e ↦ absurd_bool (sym h ∙ rw e refl)
  | inr e ↦ sym (ap is_white (paint_ne colors k visiting j e)) ∙ h
]

-- Entering a white task of the list leaves fewer.
whites-enter :
    (ids : List ℕ) (colors : ℕ → Color) (k : ℕ)
    → member k ids ≡ true
    → is_white (colors k) ≡ true
    → whites ids (paint colors k visiting) + 1 ≤ whites ids colors
whites-enter [] colors k m w = ground arith
whites-enter (i ∷ ids) colors k m w = elim (Bool-cases (i == k)) [
  | inl e ↦
      let others = whites-le ids colors (paint colors k visiting) (paint_white colors k) in
      let same : is_white (colors i) ≡ true =
        ap (λ j. is_white (colors j)) ((==_iff i k).0 e) ∙ w in
      rw (e, same) (omega (arith, others))
  | inr e ↦ let rest = whites-enter ids colors k (rw e at m) w in rw e (omega (arith, rest))
]

module _ (deps : ℕ → List ℕ) (ids : List ℕ) where
  -- A result of a call, with what it did.
  abbrev pub Ends : Option Search → (Search → Type 0) → Type 0
  Ends o P = (t : Search) × (o ≡ some t) × P t

  follow_all_step :
      (f : ℕ → Search → Option Search) (k : ℕ) (ks : List ℕ) (s t : Search)
      → follow f k (s.colors k) s ≡ some t
      → follow_all f (k ∷ ks) s ≡ follow_all f ks t
  unfolding follow_all
  follow_all_step f k ks s t e = rw (e, follow_all) refl

  visit_step :
      (fuel k : ℕ) (s t : Search)
      → follow_all (visit deps fuel) (deps k) (enter k s) ≡ some t
      → visit deps (suc fuel) k s ≡ some (leave k t)
  unfolding visit
  visit_step fuel k s t e = rw (e, visit) refl

  -- A white task of the list is searched with fuel for the white ones, from where the stack leads.
  abbrev pub Visits : (ℕ → Search → Option Search) → ℕ → Type 0
  Visits f fuel =
      (k : ℕ) (s : Search)
      → member k ids ≡ true
      → is_white (s.colors k) ≡ true
      → whites ids s.colors ≤ fuel
      → Inv deps s
      → Links deps s.stack k
      → Ends (f k s) (Done deps k s)

  pub record Followed (ks : List ℕ) (s t : Search) : Type 0 where
    pub later : Later deps s t
    pub complete : t.found ≡ [] → (d : ℕ) → member d ks ≡ true → is_visited (t.colors d) ≡ true

  follow_one :
      (f : ℕ → Search → Option Search) (fuel k : ℕ) (s : Search) (c : Color)
      → s.colors k ≡ c
      → Visits f fuel
      → member k ids ≡ true
      → whites ids s.colors ≤ fuel
      → Inv deps s
      → Links deps s.stack k
      → Ends (follow f k c s) (Done deps k s)
  follow_one f fuel k s white e ih m few i l = ih k s m (ap is_white e) few i l
  follow_one f fuel k s visiting e ih m few i l =
      (close_cycle k s, refl, close-Done deps k s i (ap is_visiting e) l)
  follow_one f fuel k s visited e ih m few i l =
      (s, refl, record { later = Later-refl deps s i; complete = λ _. ap is_visited e })

  follow_all_ends :
      (f : ℕ → Search → Option Search) (fuel : ℕ) (ks : List ℕ) (s : Search)
      → Visits f fuel
      → ((d : ℕ) → member d ks ≡ true → (member d ids ≡ true) × Links deps s.stack d)
      → whites ids s.colors ≤ fuel
      → Inv deps s
      → Ends (follow_all f ks s) (Followed ks s)
  unfolding follow_all
  follow_all_ends f fuel [] s ih from few i =
      (s, refl, record { later = Later-refl deps s i; complete = λ _ d h. absurd_bool (sym h) })
  follow_all_ends f fuel (k ∷ ks) s ih from few i =
      let (m, l) = from k (rw (==_refl k) refl) in
      let (t, e, d) = follow_one f fuel k s (s.colors k) refl ih m few i l in
      let fewer = whites-le ids s.colors t.colors d.later.whites in
      let (u, e', rest) =
        follow_all_ends f fuel ks t ih
          (λ x h.
            let (m', l') = from x (rest_member x h) in
            (m', subst (λ xs. Links deps xs x) (sym d.later.stack) l'))
          (omega (arith, fewer, few)) d.later.inv in
      (
        u,
        follow_all_step f k ks s t e ∙ e',
        record {
          later = Later-trans deps s t u d.later rest.later;
          complete = λ empty x h.
              followed u empty x h rest (d.complete (rest.later.earlier empty))
                (Bool-cases (k == x));
        },
      )
    where
      rest_member : (x : ℕ) → member x ks ≡ true → member x (k ∷ ks) ≡ true
      rest_member x h = ground arith

      followed :
          (u : Search)
          → u.found ≡ []
          → (x : ℕ) → member x (k ∷ ks) ≡ true
          → {t : Search} → Followed ks t u
          → is_visited (t.colors k) ≡ true
          → ((k == x) ≡ true) ⊎ ((k == x) ≡ false)
          → is_visited (u.colors x) ≡ true
      followed u empty x h rest first (inl same) =
          ap (λ j. is_visited (u.colors j)) (sym ((==_iff k x).0 same))
          ∙ rest.later.finished k first
      followed u empty x h rest first (inr other) = rest.complete empty x (rw other at h)

  visit_ends :
      (fuel : ℕ) → ((u v : ℕ) → Edge deps u v → member v ids ≡ true) → Visits (visit deps fuel) fuel
  unfolding visit
  visit_ends zero inside k s m w few i l =
      let fewer = whites-enter ids s.colors k m w in absurd (omega (arith, few, fewer))
  visit_ends (suc fuel) inside k s m w few i l =
      let fewer = whites-enter ids s.colors k m w in
      let (t, e, d) =
        follow_all_ends (visit deps fuel) fuel (deps k) (enter k s) (visit_ends fuel inside)
          (λ x h. (inside k x h, Links-snoc deps s.stack k x h)) (omega (arith, few, fewer))
          (enter-Inv deps k s i w l) in
      (leave k t, visit_step fuel k s t e, leave-Done deps k s t w i d.later d.complete)

  visit_all_white :
      (fuel k : ℕ) (ks : List ℕ) (s t : Search)
      → is_white (s.colors k) ≡ true
      → visit deps fuel k s ≡ some t
      → visit_all deps fuel (k ∷ ks) s ≡ visit_all deps fuel ks t
  unfolding visit_all
  visit_all_white fuel k ks s t w e = rw (w, e, visit_all) refl

  visit_all_rest :
      (fuel k : ℕ) (ks : List ℕ) (s : Search)
      → is_white (s.colors k) ≡ false
      → visit_all deps fuel (k ∷ ks) s ≡ visit_all deps fuel ks s
  unfolding visit_all
  visit_all_rest fuel k ks s w = rw (w, visit_all) refl

  not_white : (c : Color) → is_white c ≡ false → is_visiting c ≡ false → is_visited c ≡ true
  not_white white a b = absurd_bool a
  not_white visiting a b = absurd_bool b
  not_white visited a b = refl

  -- The outer loop searches every task of its list that is still white.
  pub visit_all_ends :
      (fuel : ℕ) (ks : List ℕ) (s : Search)
      → ((u v : ℕ) → Edge deps u v → member v ids ≡ true)
      → ((d : ℕ) → member d ks ≡ true → member d ids ≡ true)
      → whites ids s.colors ≤ fuel
      → s.stack ≡ []
      → Inv deps s
      → Ends (visit_all deps fuel ks s) (Followed ks s)
  unfolding visit_all
  visit_all_ends fuel [] s inside from few empty i =
      (s, refl, record { later = Later-refl deps s i; complete = λ _ d h. absurd_bool (sym h) })
  visit_all_ends fuel (k ∷ ks) s inside from few empty i =
      by (Bool-cases (is_white (s.colors k))) (λ t later.
        visit_all_ends fuel ks t inside (λ d h. from d (rest_member d h))
          (let fewer = whites-le ids s.colors t.colors later.whites in omega (arith, fewer, few))
          (later.stack ∙ empty) later.inv)
    where
      rest_member : (x : ℕ) → member x ks ≡ true → member x (k ∷ ks) ≡ true
      rest_member x h = ground arith

      followed : (t u : Search) → Done deps k s t → Followed ks t u → Followed (k ∷ ks) s u
      followed t u d rest = record {
        later = Later-trans deps s t u d.later rest.later;
        complete = λ none_found x h. elim (Bool-cases (k == x)) [
          | inl same ↦
              ap (λ j. is_visited (u.colors j)) (sym ((==_iff k x).0 same))
              ∙ rest.later.finished k (d.complete (rest.later.earlier none_found))
          | inr other ↦ rest.complete none_found x (rw other at h)
        ];
      }

      by :
          ((is_white (s.colors k) ≡ true) ⊎ (is_white (s.colors k) ≡ false))
          → ((t : Search) → Later deps s t → Ends (visit_all deps fuel ks t) (Followed ks t))
          → Ends (visit_all deps fuel (k ∷ ks) s) (Followed (k ∷ ks) s)
      by (inl w) loop =
          let (t, e, d) =
            visit_ends fuel inside k s (from k (rw (==_refl k) refl)) w few i
              (subst (λ xs. Links deps xs k) (sym empty) tt) in
          let (u, e', rest) = loop t d.later in
          (u, visit_all_white fuel k ks s t w e ∙ e', followed t u d rest)
      by (inr w) loop =
          let (u, e', rest) = loop s (Later-refl deps s i) in
          let idle : is_visiting (s.colors k) ≡ false = i.on_stack k ∙ ap (member k) empty in
          (
            u,
            visit_all_rest fuel k ks s w ∙ e',
            followed s u
                (record {
                  later = Later-refl deps s i;
                  complete = λ _. not_white (s.colors k) w idle;
                })
                rest,
          )
