-- ===== src/Console/Once.antt =====
-- The one-time secret of src/dyro/console/session.py.
use dyro_engineering_flow.Prelude.{ℕ, ◌+◌, ◌≤◌, ◌≡◌, some, List, [], ◌∷◌, arith, Bool}
use dyro_engineering_flow.Console.Session.{
  ConsoleSessionStore, ok, session_rejected, type_error, Call, exchanges, authorizes, shows, clears,
  Reply, granted, authorized, shown, cleared, new_store, replies,
}
use dyro_engineering_flow.Console.Spec.{Phase, waiting, live, closed, spec_call, spec_replies}
use dyro_engineering_flow.Console.Refines.{new_store-refines}

-- How many replies grant a session.
abbrev is_grant : Reply → ℕ
is_grant (granted (ok _)) = 1
is_grant (granted session_rejected) = 0
is_grant (granted type_error) = 0
is_grant (authorized _) = 0
is_grant (shown _) = 0
is_grant cleared = 0

abbrev pub grants : List Reply → ℕ
grants [] = 0
grants (r ∷ rs) = is_grant r + grants rs

-- How many may still come.
abbrev left : Phase → ℕ
left (waiting _) = 1
left (live _ _ _) = 0
left closed = 0

module _ (size : ℕ → ℕ) (is_ascii : ℕ → Bool) (secret deadline : ℕ) where
  call-left :
      (c : Call) (p : Phase)
      → is_grant (spec_call size is_ascii secret deadline c p).1
          + left (spec_call size is_ascii secret deadline c p).0
        ≤ left p
  unfolding spec_call
  call-left (exchanges supplied now wall token) (waiting n) = ground arith
  call-left (exchanges supplied now wall token) (live _ _ _) = omega arith
  call-left (exchanges supplied now wall token) closed = omega arith
  call-left (authorizes supplied now wall) (waiting n) = omega arith
  call-left (authorizes supplied now wall) (live _ _ _) = ground arith
  call-left (authorizes supplied now wall) closed = omega arith
  call-left shows p = omega arith
  call-left clears p = omega arith

  grants-le-left :
      (cs : List Call) (p : Phase)
      → grants (spec_replies size is_ascii secret deadline cs p) ≤ left p
  unfolding spec_replies
  grants-le-left [] p = omega arith
  grants-le-left (c ∷ cs) p =
      omega
        (arith, call-left c p, grants-le-left cs (spec_call size is_ascii secret deadline c p).0)

-- In any history of calls a new store grants at most one session.
pub exchange_once :
    (size : ℕ → ℕ) (is_ascii : ℕ → Bool) (secret now : ℕ) {s : ConsoleSessionStore} (cs : List Call)
    → new_store size is_ascii secret now ≡ some s
    → grants (replies size is_ascii cs s) ≤ 1
exchange_once size is_ascii secret now cs h =
    rw (new_store-refines size is_ascii secret now cs h)
      (grants-le-left size is_ascii secret (now + 60) cs (waiting 0))
