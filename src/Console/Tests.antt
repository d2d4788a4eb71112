-- ===== src/Console/Tests.antt =====
-- A store whose secret is guessed, exchanged and tried again.
use dyro_engineering_flow.Prelude.{ℕ, ◌≤◌, ◌≡◌, refl, Bool, true, some, [], ◌∷◌, List}
use dyro_engineering_flow.Console.Session.{
  ConsoleSessionStore, ok, session_rejected, Call, exchanges, authorizes, shows, granted,
  authorized, shown, new_store, replies,
}
use dyro_engineering_flow.Console.Spec.{waiting, spec_replies}
use dyro_engineering_flow.Console.Refines.{new_store-refines}
use dyro_engineering_flow.Console.Once.{grants, exchange_once}

abbrev size : ℕ → ℕ
size _ = 43

abbrev is_ascii : ℕ → Bool
is_ascii _ = true

abbrev store : ConsoleSessionStore
store = record {
  bootstrap_secret = some 7;
  bootstrap_deadline = 160;
  bootstrap_failures = 0;
  sessions = [];
}

new_store_built : new_store size is_ascii 7 100 ≡ some store
unfolding new_store
new_store_built = refl

abbrev calls : List Call
calls =
    exchanges 8 110 5000 70
    ∷ shows
    ∷ exchanges 7 120 5010 71
    ∷ exchanges 7 130 5020 72
    ∷ authorizes 71 1900 6000
    ∷ authorizes 71 3700 7000
    ∷ []

replies_built :
    replies size is_ascii calls store
    ≡ granted session_rejected
      ∷ shown (ok 7)
      ∷ granted (ok (record { token = 71; expires_at = 33810 }))
      ∷ granted session_rejected
      ∷ authorized (ok (record { token = 71; expires_at = 7800 }))
      ∷ authorized session_rejected
      ∷ []
unfolding replies
replies_built = refl

new_store-refines_example :
    replies size is_ascii calls store ≡ spec_replies size is_ascii 7 160 calls (waiting 0)
new_store-refines_example = new_store-refines size is_ascii 7 100 calls new_store_built

exchange_once_example : grants (replies size is_ascii calls store) ≤ 1
exchange_once_example = exchange_once size is_ascii 7 100 calls new_store_built
