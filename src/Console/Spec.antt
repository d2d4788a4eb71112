-- ===== src/Console/Spec.antt =====
-- What the sessions of src/dyro/console/session.py promise: one secret is exchanged once for one
-- session, which lives while it is used every half hour, and eight hours at most.
use dyro_engineering_flow.Prelude.{
  ℕ, ◌+◌, ◌-◌, min, Bool, not, ◌&&◌, ◌||◌, List, [], ◌∷◌, ltb, leb, ◌==◌, if◌then◌else◌,
}
use dyro_engineering_flow.Console.Session.{
  SessionView, Answer, ok, session_rejected, type_error, Call, exchanges, authorizes, shows, clears,
  Reply, granted, authorized, shown, cleared,
}

-- `waiting n`: the secret is left after `n` failures. `live token start last`: granted at `start`
-- and used at `last`.
pub data Phase : Type 0 where
  waiting : ℕ → Phase
  live : (token start last : ℕ) → Phase
  closed : Phase

-- Four failures are forgiven.
abbrev pub fail : ℕ → Phase
fail failures = if ltb failures 4 then waiting (failures + 1) else closed

module _ (size : ℕ → ℕ) (is_ascii : ℕ → Bool) (secret deadline : ℕ) where
  abbrev pub spec_exchange : ℕ → ℕ → ℕ → ℕ → Phase → Phase × Answer SessionView
  spec_exchange supplied now wall token (waiting failures) =
      if ltb 256 (size supplied)
      then (waiting failures, session_rejected)
      else if leb deadline now
      then (fail failures, session_rejected)
      else if not (is_ascii supplied && is_ascii secret)
      then (waiting failures, type_error)
      else if secret == supplied
      then (live token now now, ok (record { token = token; expires_at = wall + 28800 }))
      else (fail failures, session_rejected)
  spec_exchange supplied now wall token (live t start last) = (live t start last, session_rejected)
  spec_exchange supplied now wall token closed = (closed, session_rejected)

  abbrev pub spec_authorize : ℕ → ℕ → ℕ → Phase → Phase × Answer SessionView
  spec_authorize supplied now wall (waiting failures) = (waiting failures, session_rejected)
  spec_authorize supplied now wall (live token start last) =
      if ltb 256 (size supplied) || not (token == supplied)
      then (live token start last, session_rejected)
      else if ltb now (last + 1800) && ltb now (start + 28800)
      then (
        live token start now,
        ok (record { token = token; expires_at = wall + min 1800 (start + 28800 - now) }),
      )
      else (closed, session_rejected)
  spec_authorize supplied now wall closed = (closed, session_rejected)

  abbrev pub spec_show : Phase → Answer ℕ
  spec_show (waiting failures) = ok secret
  spec_show (live token start last) = session_rejected
  spec_show closed = session_rejected

  unfoldable pub spec_call : Call → Phase → Phase × Reply
  spec_call (exchanges supplied now wall token) p =
      let (p', r) = spec_exchange supplied now wall token p in (p', granted r)
  spec_call (authorizes supplied now wall) p =
      let (p', r) = spec_authorize supplied now wall p in (p', authorized r)
  spec_call shows p = (p, shown (spec_show p))
  spec_call clears p = (closed, cleared)

  unfoldable pub spec_replies : List Call → Phase → List Reply
  unfolding spec_call
  spec_replies [] p = []
  spec_replies (c ∷ cs) p = let (p', r) = spec_call c p in r ∷ spec_replies cs p'
