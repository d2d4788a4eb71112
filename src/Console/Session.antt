-- ===== src/Console/Session.antt =====
-- `ConsoleSessionStore` of src/dyro/console/session.py. Each call stands under the store's lock, so
-- a history is a list of calls. A call is handed what it reads from the monotonic clock (`now`),
-- from the wall clock (`wall`) and from `secrets.token_urlsafe` (`token`).
use dyro_engineering_flow.Prelude.{
  ℕ, ◌+◌, ◌-◌, min, max, Bool, not, ◌&&◌, ◌||◌, Option, none, some, List, [], ◌∷◌, ltb, leb, ◌==◌,
  if◌then◌else◌,
}

-- `BOOTSTRAP_TTL_SECONDS`, `BOOTSTRAP_MAX_FAILURES`, `SESSION_IDLE_TTL_SECONDS` and
-- `SESSION_ABSOLUTE_TTL_SECONDS`
abbrev pub bootstrap_ttl_seconds : ℕ
bootstrap_ttl_seconds = 60

abbrev pub bootstrap_max_failures : ℕ
bootstrap_max_failures = 5

abbrev pub session_idle_ttl_seconds : ℕ
session_idle_ttl_seconds = 1800

abbrev pub session_absolute_ttl_seconds : ℕ
session_absolute_ttl_seconds = 28800

pub record SessionView : Type 0 where
  pub token : ℕ
  pub expires_at : ℕ

-- `_Session`
pub record Session : Type 0 where
  pub token : ℕ
  pub idle_deadline : ℕ
  pub absolute_deadline : ℕ
  pub absolute_expires_at : ℕ

pub record ConsoleSessionStore : Type 0 where
  pub bootstrap_secret : Option ℕ
  pub bootstrap_deadline : ℕ
  pub bootstrap_failures : ℕ
  pub sessions : List (ℕ × Session)

-- `SessionRejected`, and the `TypeError` of `hmac.compare_digest` at a text that is not ASCII.
pub data Answer (A : Type 0) : Type 0 where
  ok : A → Answer A
  session_rejected type_error : Answer A

-- `dict.get`, `dict.__setitem__` and `dict.pop(key, None)`
abbrev pub get : ℕ → List (ℕ × Session) → Option Session
get k [] = none
get k ((j, s) ∷ rest) = if j == k then some s else get k rest

abbrev pub put : ℕ → Session → List (ℕ × Session) → List (ℕ × Session)
put k s [] = (k, s) ∷ []
put k s ((j, t) ∷ rest) =
    let others = put k s rest in if j == k then (k, s) ∷ rest else (j, t) ∷ others

abbrev pub pop : ℕ → List (ℕ × Session) → List (ℕ × Session)
pop k [] = []
pop k ((j, s) ∷ rest) = let others = pop k rest in if j == k then rest else (j, s) ∷ others

pub data Call : Type 0 where
  exchanges : (supplied now wall token : ℕ) → Call
  authorizes : (supplied now wall : ℕ) → Call
  shows clears : Call

pub data Reply : Type 0 where
  granted authorized : Answer SessionView → Reply
  shown : Answer ℕ → Reply
  cleared : Reply

-- A text is a number, with its length and whether it is ASCII.
module _ (size : ℕ → ℕ) (is_ascii : ℕ → Bool) where
  -- `__init__`, for the secret that it is given or draws
  unfoldable pub new_store : ℕ → ℕ → Option ConsoleSessionStore
  new_store secret now =
      if ltb (size secret) 43
      then none
      else some (record {
        bootstrap_secret = some secret;
        bootstrap_deadline = now + bootstrap_ttl_seconds;
        bootstrap_failures = 0;
        sessions = [];
      })

  -- The refusal of `exchange`: the fifth one takes the secret away.
  abbrev pub count_failure : ConsoleSessionStore → ConsoleSessionStore
  count_failure s =
      let failures = s.bootstrap_failures + 1 in
      record s {
        bootstrap_failures = failures;
        bootstrap_secret = if leb bootstrap_max_failures failures then none else s.bootstrap_secret;
      }

  abbrev pub grant_session : ℕ → ℕ → ℕ → ConsoleSessionStore → ConsoleSessionStore
  grant_session now wall token s = record s {
    bootstrap_secret = none;
    sessions =
        put token
          (record {
            token = token;
            idle_deadline = now + session_idle_ttl_seconds;
            absolute_deadline = now + session_absolute_ttl_seconds;
            absolute_expires_at = wall + session_absolute_ttl_seconds;
          })
          s.sessions;
  }

  -- What `exchange` does where a secret is left.
  abbrev pub exchange_secret :
      ℕ → ℕ → ℕ → ℕ → ℕ → ConsoleSessionStore → ConsoleSessionStore × Answer SessionView
  exchange_secret expected supplied now wall token s =
      if leb s.bootstrap_deadline now || leb bootstrap_max_failures s.bootstrap_failures
      then (count_failure s, session_rejected)
      else if not (is_ascii supplied && is_ascii expected)
      then (s, type_error)
      else if expected == supplied
      then (
        grant_session now wall token s,
        ok (record { token = token; expires_at = wall + session_absolute_ttl_seconds }),
      )
      else (count_failure s, session_rejected)

  unfoldable pub exchange :
      ℕ → ℕ → ℕ → ℕ → ConsoleSessionStore → ConsoleSessionStore × Answer SessionView
  exchange supplied now wall token s =
      if ltb 256 (size supplied) then (s, session_rejected) else elim s.bootstrap_secret [
        | none ↦ (count_failure s, session_rejected)
        | some expected ↦ exchange_secret expected supplied now wall token s
      ]

  -- `authorize` on a session that was found; its token is compared, and both are texts of
  -- `secrets.token_urlsafe`, which are ASCII.
  abbrev pub authorize_session :
      ℕ → ℕ → ℕ → Session → ConsoleSessionStore → ConsoleSessionStore × Answer SessionView
  authorize_session supplied now wall session s =
      if not (session.token == supplied)
        || leb session.idle_deadline now
        || leb session.absolute_deadline now
      then (record s { sessions = pop supplied s.sessions }, session_rejected)
      else let idle = min (now + session_idle_ttl_seconds) session.absolute_deadline in
        let remaining = min idle session.absolute_deadline - now in
        (
          record s { sessions = put supplied (record session { idle_deadline = idle }) s.sessions },
          ok (record { token = session.token; expires_at = wall + max 0 remaining }),
        )

  unfoldable pub authorize :
      ℕ → ℕ → ℕ → ConsoleSessionStore → ConsoleSessionStore × Answer SessionView
  authorize supplied now wall s =
      if ltb 256 (size supplied) then (s, session_rejected) else elim (get supplied s.sessions) [
        | none ↦ (s, session_rejected)
        | some session ↦ authorize_session supplied now wall session s
      ]

  -- The property `bootstrap_secret`
  abbrev pub show_secret : ConsoleSessionStore → Answer ℕ
  show_secret s = elim s.bootstrap_secret [ none ↦ session_rejected | some secret ↦ ok secret ]

  unfoldable pub clear : ConsoleSessionStore → ConsoleSessionStore
  clear s = record s { bootstrap_secret = none; sessions = [] }

  unfoldable pub call : Call → ConsoleSessionStore → ConsoleSessionStore × Reply
  unfolding exchange authorize clear
  call (exchanges supplied now wall token) s =
      let (s', r) = exchange supplied now wall token s in (s', granted r)
  call (authorizes supplied now wall) s =
      let (s', r) = authorize supplied now wall s in (s', authorized r)
  call shows s = (s, shown (show_secret s))
  call clears s = (clear s, cleared)

  -- The replies to a history of calls.
  unfoldable pub replies : List Call → ConsoleSessionStore → List Reply
  unfolding call
  replies [] s = []
  replies (c ∷ cs) s = let (s', r) = call c s in r ∷ replies cs s'
