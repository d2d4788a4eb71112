-- ===== src/Console/Refines.antt =====
-- `ConsoleSessionStore` of src/dyro/console/session.py keeps what its specification promises.
use dyro_engineering_flow.Prelude.{
  or_false, ℕ, ◌+◌, ◌-◌, ◌<◌, ◌≡◌, refl, ap, subst, min, max, Bool, true, false, not, ◌&&◌, ◌||◌,
  Option, none, some, List, [], ◌∷◌, arith, ltb, leb, ◌==◌, ==_iff, ◌∙◌, if◌then◌else◌, Bool-cases,
  inl, inr,
}
use dyro_engineering_flow.Console.Session.{
  SessionView, Session, ConsoleSessionStore, Answer, ok, session_rejected, Call, exchanges,
  authorizes, shows, clears, granted, authorized, new_store, exchange, authorize, call, replies,
}
use dyro_engineering_flow.Console.Spec.{
  Phase, waiting, live, closed, fail, spec_exchange, spec_authorize, spec_call, spec_replies,
}

abbrev no_secret : Option ℕ
no_secret = none

gone : (b : Bool) → (if b then none else none) ≡ no_secret
gone true = refl
gone false = refl

module _ (size : ℕ → ℕ) (is_ascii : ℕ → Bool) (secret deadline : ℕ) where
  abbrev waiting_store : ℕ → ConsoleSessionStore
  waiting_store failures = record {
    bootstrap_secret = some secret;
    bootstrap_deadline = deadline;
    bootstrap_failures = failures;
    sessions = [];
  }

  abbrev closed_store : List (ℕ × Session) → ℕ → ConsoleSessionStore
  closed_store sessions failures = record {
    bootstrap_secret = none;
    bootstrap_deadline = deadline;
    bootstrap_failures = failures;
    sessions = sessions;
  }

  abbrev session_of : ℕ → ℕ → ℕ → ℕ → Session
  session_of token start last wall = record {
    token = token;
    idle_deadline = min (last + 1800) (start + 28800);
    absolute_deadline = start + 28800;
    absolute_expires_at = wall;
  }

  -- The stores that stand for a phase.
  data Stands : Phase → ConsoleSessionStore → Type 0 where
    is_waiting : (failures : ℕ) → failures < 5 → Stands (waiting failures) (waiting_store failures)
    is_live :
        (token start last wall failures : ℕ)
        → Stands
            (live token start last)
            (closed_store ((token, session_of token start last wall) ∷ []) failures)
    is_closed : (failures : ℕ) → Stands closed (closed_store [] failures)

  -- One step of both.
  record Agree {A : Type 0} (x : ConsoleSessionStore × A) (y : Phase × A) : Type 0 where
    state : Stands y.0 x.0
    reply : x.1 ≡ y.1

  if-Agree :
      {A : Type 0} (b : Bool) (x x' : ConsoleSessionStore × A) (y y' : Phase × A)
      → (b ≡ true → Agree x y)
      → (b ≡ false → Agree x' y')
      → Agree (if b then x else x') (if b then y else y')
  if-Agree true x x' y y' f g = f refl
  if-Agree false x x' y y' f g = g refl

  count_failure-Agree :
      (n : ℕ)
      → n < 5
      → Agree {A = Answer SessionView}
          (
            record (waiting_store n) {
              bootstrap_failures = n + 1;
              bootstrap_secret = if leb 5 (n + 1) then none else some secret;
            },
            session_rejected,
          )
          (fail n, session_rejected)
  count_failure-Agree n few = elim (Bool-cases (ltb n 4)) [
    | inl e ↦
        let below : leb 5 (n + 1) ≡ false = ground arith in
        rw (e, below) (record { state = is_waiting (n + 1) (ground arith); reply = refl })
    | inr e ↦
        let last : leb 5 (n + 1) ≡ true = ground arith in
        rw (e, last) (record { state = is_closed (n + 1); reply = refl })
  ]

  exchange-Agree :
      (supplied now wall token : ℕ) (p : Phase) (s : ConsoleSessionStore)
      → Stands p s
      → Agree
          (exchange size is_ascii supplied now wall token s)
          (spec_exchange size is_ascii secret deadline supplied now wall token p)
  unfolding exchange
  exchange-Agree supplied now wall token (waiting n) s (is_waiting _ few) =
      let within : leb 5 n ≡ false = ground arith in
      let idle : min (now + 1800) (now + 28800) ≡ now + 1800 = omega arith in
      if-Agree (ltb 256 (size supplied)) _ _ _ _
        (λ _. record { state = is_waiting n few; reply = refl })
        (λ _.
          rw (within, or_false (leb deadline now))
            (if-Agree (leb deadline now) _ _ _ _ (λ _. count_failure-Agree n few)
              λ _.
                if-Agree (not (is_ascii supplied && is_ascii secret)) _ _ _ _
                  (λ _. record { state = is_waiting n few; reply = refl })
                  (λ _.
                    if-Agree (secret == supplied) _ _ _ _
                      (λ _. record {
                        state =
                            subst
                              (λ i. Stands (live token now now) (
                                closed_store
                                  ((
                                    token,
                                    record (session_of token now now (wall + 28800)) {
                                      idle_deadline = i;
                                    },
                                  )
                                    ∷ [])
                                  n))
                              idle (is_live token now now (wall + 28800) n);
                        reply = refl;
                      })
                      (λ _. count_failure-Agree n few))))
  exchange-Agree supplied now wall token (live t start last) s (is_live _ _ _ w f) =
      elim (Bool-cases (ltb 256 (size supplied))) [
        | inl e ↦ rw e (record { state = is_live t start last w f; reply = refl })
        | inr e ↦
            rw (e, gone (leb 5 (f + 1)))
              (record { state = is_live t start last w (f + 1); reply = refl })
      ]
  exchange-Agree supplied now wall token closed s (is_closed f) =
      elim (Bool-cases (ltb 256 (size supplied))) [
        | inl e ↦ rw e (record { state = is_closed f; reply = refl })
        | inr e ↦ rw (e, gone (leb 5 (f + 1))) (record { state = is_closed (f + 1); reply = refl })
      ]

  -- A session that is found is used, or it is over.
  used :
      (t start last w f now wall supplied : ℕ)
      → t ≡ supplied
      → Agree {A = Answer SessionView}
          (let idle = min (now + 1800) (start + 28800) in
            if leb (min (last + 1800) (start + 28800)) now || leb (start + 28800) now
            then (closed_store [] f, session_rejected)
            else (
              closed_store ((supplied, session_of t start now w) ∷ []) f,
              ok (record { token = t; expires_at = wall + max 0 (min idle (start + 28800) - now) }),
            ))
          (if ltb now (last + 1800) && ltb now (start + 28800)
            then (
              live t start now,
              ok (record { token = t; expires_at = wall + min 1800 (start + 28800 - now) }),
            )
            else (closed, session_rejected))
  used t start last w f now wall supplied same =
      elim (Bool-cases (ltb now (last + 1800) && ltb now (start + 28800))) [
        | inl e ↦
            let open_still : (leb (min (last + 1800) (start + 28800)) now
                  || leb (start + 28800) now)
                ≡ false =
              ground arith in
            let left : max 0 (min (min (now + 1800) (start + 28800)) (start + 28800) - now)
                ≡ min 1800 (start + 28800 - now) =
              ground arith in
            rw (e, open_still, left)
              (record {
                state =
                    subst
                      (λ k.
                        Stands (live t start now)
                          (closed_store ((k, session_of t start now w) ∷ []) f))
                      same (is_live t start now w f);
                reply = refl;
              })
        | inr e ↦
            let over : (leb (min (last + 1800) (start + 28800)) now || leb (start + 28800) now)
                ≡ true =
              ground arith in
            rw (e, over) (record { state = is_closed f; reply = refl })
      ]

  authorize-Agree :
      (supplied now wall : ℕ) (p : Phase) (s : ConsoleSessionStore)
      → Stands p s
      → Agree
          (authorize size is_ascii supplied now wall s)
          (spec_authorize size is_ascii secret deadline supplied now wall p)
  unfolding authorize
  authorize-Agree supplied now wall (waiting n) s (is_waiting _ few) =
      elim (Bool-cases (ltb 256 (size supplied))) [
        | inl e ↦ rw e (record { state = is_waiting n few; reply = refl })
        | inr e ↦ rw e (record { state = is_waiting n few; reply = refl })
      ]
  authorize-Agree supplied now wall (live t start last) s (is_live _ _ _ w f) =
      elim (Bool-cases (ltb 256 (size supplied))) [
        | inl e ↦ rw e (record { state = is_live t start last w f; reply = refl })
        | inr e ↦ elim (Bool-cases (t == supplied)) [
          | inr other ↦ rw (e, other) (record { state = is_live t start last w f; reply = refl })
          | inl same ↦
              simp (e, same) (used t start last w f now wall supplied ((==_iff t supplied).0 same))
        ]
      ]
  authorize-Agree supplied now wall closed s (is_closed f) =
      elim (Bool-cases (ltb 256 (size supplied))) [
        | inl e ↦ rw e (record { state = is_closed f; reply = refl })
        | inr e ↦ rw e (record { state = is_closed f; reply = refl })
      ]

  call-Agree :
      (c : Call) (p : Phase) (s : ConsoleSessionStore)
      → Stands p s
      → Agree (call size is_ascii c s) (spec_call size is_ascii secret deadline c p)
  unfolding call spec_call
  call-Agree (exchanges supplied now wall token) p s h =
      let a = exchange-Agree supplied now wall token p s h in
      record { state = a.state; reply = ap granted a.reply }
  call-Agree (authorizes supplied now wall) p s h =
      let a = authorize-Agree supplied now wall p s h in
      record { state = a.state; reply = ap authorized a.reply }
  call-Agree shows (waiting _) s (is_waiting n few) = record {
    state = is_waiting n few;
    reply = refl;
  }
  call-Agree shows (live _ _ _) s (is_live t start last w f) = record {
    state = is_live t start last w f;
    reply = refl;
  }
  call-Agree shows closed s (is_closed f) = record { state = is_closed f; reply = refl }
  call-Agree clears (waiting _) s (is_waiting n few) = record { state = is_closed n; reply = refl }
  call-Agree clears (live _ _ _) s (is_live t start last w f) = record {
    state = is_closed f;
    reply = refl;
  }
  call-Agree clears closed s (is_closed f) = record { state = is_closed f; reply = refl }

  replies-Agree :
      (cs : List Call) (p : Phase) (s : ConsoleSessionStore)
      → Stands p s
      → replies size is_ascii cs s ≡ spec_replies size is_ascii secret deadline cs p
  unfolding replies spec_replies
  replies-Agree [] p s h = refl
  replies-Agree (c ∷ cs) p s h =
      let a = call-Agree c p s h in
      let rest = replies-Agree cs _ _ a.state in
      ap (λ r. r ∷ replies size is_ascii cs (call size is_ascii c s).0) a.reply
      ∙ ap (λ rs. (spec_call size is_ascii secret deadline c p).1 ∷ rs) rest

-- Every reply of a new store, in any history of calls, is the one that the specification gives: the
-- secret is exchanged once, for one session, before its deadline and before the fifth failure.
pub new_store-refines :
    (size : ℕ → ℕ) (is_ascii : ℕ → Bool) (secret now : ℕ) {s : ConsoleSessionStore} (cs : List Call)
    → new_store size is_ascii secret now ≡ some s
    → replies size is_ascii cs s ≡ spec_replies size is_ascii secret (now + 60) cs (waiting 0)
unfolding new_store
new_store-refines size is_ascii secret now {s} cs h =
    let same : s ≡ waiting_store size is_ascii secret (now + 60) 0 = ground arith in
    rw same
      (replies-Agree size is_ascii secret (now + 60) cs (waiting 0) _ (is_waiting 0 (omega arith)))
