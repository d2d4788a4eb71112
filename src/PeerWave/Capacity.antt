-- ===== src/PeerWave/Capacity.antt =====
-- The state of the loop of `bind_wave_executors` in src/dyro/peer_wave.py.
use dyro_engineering_flow.Prelude.{
  ℕ, ◌+◌, ◌≤◌, ◌≡◌, refl, sym, subst, Bool, true, false, not, ◌&&◌, inl, inr, Option, none, some,
  List, [], ◌∷◌, arith, ltb, leb, ◌==◌, ==_iff, ==_refl, All, All-append, select, member, sum_by,
  sum_by-append, Bool-cases, if◌then◌else◌,
}
use dyro_engineering_flow.Planner.Model.{Task}
use dyro_engineering_flow.PeerWave.Bind.{
  BlockReason, cursor_write, no_execute, no_idle_harness, backend_full, Source, from_auto,
  from_task, from_profile, ExecutorBinding, Binding, bind_to, defer_task, take_idle, write_allowed,
  auto_pool, bind_auto, bind_one, bind_all,
}

-- The chosen provider has room and is one of the pool.
take_idle-lem :
    (pool : List ℕ) (counts : ℕ → ℕ) (cap : ℕ) (p : ℕ)
    → take_idle pool counts cap ≡ some p
    → (ltb (counts p) cap ≡ true) × (member p pool ≡ true)
unfolding take_idle
take_idle-lem [] counts cap p h = ground arith
take_idle-lem (q ∷ qs) counts cap p h =
    let rest = take_idle-lem qs counts cap p in let self = ==_refl q in ground arith

member-select :
    (p : ℕ → Bool) (x : ℕ) (xs : List ℕ)
    → member x (select p xs) ≡ true
    → (member x xs ≡ true) × (p x ≡ true)
member-select p x [] h = ground arith
member-select p x (y ∷ ys) h = let rest = member-select p x ys in ground arith

-- How many tasks a harness got.
abbrev pub used : ℕ → List ExecutorBinding → ℕ
used e bs = sum_by (λ b. if b.executor == e then 1 else 0) bs

module _ (auto cursor : ℕ) (write_ids : List ℕ) (forbids_execute : ℕ → Bool) (ready : List ℕ)
    (cap : ℕ) where
  -- A harness that was chosen for `auto` is ready, is not Cursor, and its card lets it execute.
  abbrev pub IsAllowed : ExecutorBinding → Type 0
  IsAllowed b =
      b.pinned ≡ false
      → (member b.executor ready ≡ true)
        × ((b.executor == cursor) ≡ false)
        × (forbids_execute b.executor ≡ false)

  -- A harness for write that is ready.
  abbrev pub is_write_ready : ℕ → Bool
  is_write_ready e = member e write_ids && member e ready

  -- The state of the loop: the counts count, and a ready harness for write stays in its capacity.
  pub record IsBound (s : Binding) : Type 0 where
    pub counted : (e : ℕ) → s.counts e ≡ used e s.bindings
    pub capped : (e : ℕ) → is_write_ready e ≡ true → s.counts e ≤ cap
    pub allowed : All IsAllowed s.bindings

  bind_to-IsBound :
      (t : Task) (e : ℕ) (pinned : Bool) (source : Source) (s : Binding)
      → (is_write_ready e ≡ true → s.counts e + 1 ≤ cap)
      → IsAllowed (record { task_id = t.id; executor = e; pinned = pinned; source = source })
      → IsBound s
      → IsBound (bind_to t e pinned source s)
  bind_to-IsBound t e pinned source s room fair i = record {
    counted = λ k.
        let old = i.counted k in
        let more =
          sum_by-append (λ b. if b.executor == k then 1 else 0) s.bindings
            (record { task_id = t.id; executor = e; pinned = pinned; source = source } ∷ []) in
        ground arith;
    capped = λ k w. elim (Bool-cases (k == e)) [
      | inl same ↦
          let here : k ≡ e = (==_iff k e).0 same in
          rw same (
            subst (λ x. s.counts x + 1 ≤ cap) (sym here)
              (room (subst (λ x. is_write_ready x ≡ true) here w)))
      | inr other ↦ rw other (i.capped k w)
    ];
    allowed = All-append IsAllowed s.bindings _ i.allowed (fair, tt);
  }

  defer_task-IsBound :
      (t : Task) (r : BlockReason) (s : Binding) → IsBound s → IsBound (defer_task t r s)
  defer_task-IsBound t r s i = record {
    counted = i.counted;
    capped = i.capped;
    allowed = i.allowed;
  }

  pool-IsAllowed :
      (e : ℕ)
      → member e (auto_pool auto cursor write_ids forbids_execute ready) ≡ true
      → (member e ready ≡ true) × ((e == cursor) ≡ false) × (forbids_execute e ≡ false)
  pool-IsAllowed e h =
      let (a, b) = member-select (λ p. not (p == cursor) && not (forbids_execute p)) e ready h in
      (a, ground arith, ground arith)

  bind_auto-IsBound :
      (t : Task) (o : Option ℕ) (s : Binding)
      → take_idle (auto_pool auto cursor write_ids forbids_execute ready) s.counts cap ≡ o
      → IsBound s
      → IsBound (bind_auto auto cursor write_ids forbids_execute t o s)
  bind_auto-IsBound t none s h i = defer_task-IsBound t no_idle_harness s i
  bind_auto-IsBound t (some e) s h i =
      let (room, pooled) =
        take_idle-lem (auto_pool auto cursor write_ids forbids_execute ready) s.counts cap e h in
      bind_to-IsBound t e false from_auto s (λ _. ground arith) (λ _. pool-IsAllowed e pooled) i

  bind_one-IsBound :
      (t : Task) (s : Binding)
      → IsBound s
      → IsBound (bind_one auto cursor write_ids forbids_execute ready cap t s)
  unfolding bind_one
  bind_one-IsBound t s i =
      by (write_allowed auto cursor write_ids forbids_execute t)
        (t.is_write && forbids_execute t.executor) (t.executor == auto) (is_write_ready t.executor)
        refl (leb cap (s.counts t.executor)) refl
    where
      by :
          (a b c d : Bool)
          → is_write_ready t.executor ≡ d
          → (f : Bool) → leb cap (s.counts t.executor) ≡ f
          → IsBound (
              if a
              then (if b
                  then defer_task t no_execute s
                  else (if c
                      then bind_auto auto cursor write_ids forbids_execute t
                          (take_idle
                            (auto_pool auto cursor write_ids forbids_execute ready)
                            s.counts
                            cap)
                          s
                      else (if d
                          then (if f
                              then defer_task t backend_full s
                              else bind_to t t.executor true from_task s)
                          else bind_to t t.executor true from_profile s)))
              else defer_task t cursor_write s)
      by false b c d e f g = defer_task-IsBound t cursor_write s i
      by true true c d e f g = defer_task-IsBound t no_execute s i
      by true false true d e f g = bind_auto-IsBound t _ s refl i
      by true false false true e true g = defer_task-IsBound t backend_full s i
      by true false false true e false g =
          bind_to-IsBound t t.executor true from_task s (λ _. ground arith) (λ k. ground arith) i
      by true false false false e f g =
          bind_to-IsBound t t.executor true from_profile s (λ w. ground arith) (λ k. ground arith) i

  pub bind_all-IsBound :
      (ts : List Task) (s : Binding)
      → IsBound s
      → IsBound (bind_all auto cursor write_ids forbids_execute ready cap ts s)
  unfolding bind_all
  bind_all-IsBound [] s i = i
  bind_all-IsBound (t ∷ ts) s i = bind_all-IsBound ts _ (bind_one-IsBound t s i)
