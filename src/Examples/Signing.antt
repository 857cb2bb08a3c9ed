-- ===== src/Examples/Signing.antt =====
-- Signed requests and callbacks.
use fleet_api.Base.{
  ℕ, zero, suc, ◌≤◌, ◌≡◌, refl, ◌↔◌, ◌||◌, true, String, none, some, [], ◌∷◌, ok, any, arith,
}
use fleet_api.Agent.{Agent, active}
use fleet_api.Task.Status.{completed}
use fleet_api.Task.Row.{Task}
use fleet_api.Store.{Db, find}
use fleet_api.Auth.{
  AuthenticatedAgent, Request, is_unprotected, require_auth, database_lookup, sign_request,
  signed_path, build_signing_string,
}
use fleet_api.Auth.Accepted.{IsAuthentic, require_auth-IsAuthentic}
use fleet_api.Auth.Signed.{require_auth-sign_request}
use fleet_api.Callbacks.{
  Answer, status_code, exception, Post, callback_post, callback_path, deliver_callback, is_success,
}
use fleet_api.Callbacks.Deliveries.{attempts_needed, deliver_callback_lem}
use fleet_api.Examples.{agent, row, stock}
use fleet_api.Examples.Collation.{crypto, crypto-IsCrypto}

abbrev pub bob : Agent
bob = record (agent "bob" active (some 1)) { public_key = "bob's key" }

abbrev pub known_db : Db
known_db = record (stock [] []) { agents = bob ∷ [] }

abbrev pub unsigned : Request crypto
unsigned = record {
  method = "GET";
  path = "/workflows";
  query = "status=active";
  authorization = none;
  x_fleet_timestamp = none;
  body = "";
}

abbrev pub request : Request crypto
request = record unsigned {
  authorization =
      some (sign_request crypto 3 "GET" (signed_path crypto unsigned) "" "bob's key" "bob").0;
  x_fleet_timestamp =
      some (sign_request crypto 3 "GET" (signed_path crypto unsigned) "" "bob's key" "bob").1;
}

require_auth-IsAuthentic_example :
    ((require_auth crypto 5 (database_lookup crypto known_db) request ≡ ok none)
      ↔ (is_unprotected "/workflows" ≡ true))
    × ((who : AuthenticatedAgent crypto)
        → require_auth crypto 5 (database_lookup crypto known_db) request ≡ ok (some who)
        → IsAuthentic crypto 5 (database_lookup crypto known_db) request who)
require_auth-IsAuthentic_example =
    require_auth-IsAuthentic crypto 5 (database_lookup crypto known_db) request

require_auth-sign_request_example :
    require_auth crypto 5 (database_lookup crypto known_db) request
    ≡ ok (some (record { agent_id = "bob"; public_key = "bob's key" }))
unfolding find is_unprotected any
require_auth-sign_request_example =
    require_auth-sign_request crypto crypto-IsCrypto 3 5 known_db bob "bob's key" "bob's key"
      request refl refl refl refl refl refl (ground arith) refl refl refl

abbrev finished : Task
finished = record (row completed (some 9) none) { callback_url = some "https://alice/done" }

-- the first attempt fails
abbrev server : Post crypto → ℕ → Answer
server post zero = exception
server post (suc _) = status_code 200

deliver_callback_lem_example :
    let post =
      callback_post crypto
        (λ d. "{}")
        (λ u. "/done")
        "server key"
        9
        "https://alice/done"
        finished in
    let report =
      (deliver_callback crypto (λ d. "{}") (λ u. "/done") "server key" 9 server finished).1 in
    (report.is_delivered ≡ (
      is_success (server post 0)
      || is_success (server post 1)
      || is_success (server post 2)
      || is_success (server post 3)))
    × (report.attempts ≡ attempts_needed (server post))
    × (report.waited ≤ 7)
    × ((signature : String) × (crypto.b64decode post.x_fleet_signature ≡ some signature)
        × (crypto.verify "server key" signature (
              build_signing_string crypto "POST"
                (callback_path crypto (λ d. "{}") (λ u. "/done") "https://alice/done")
                post.x_fleet_timestamp
                post.content)
            ≡ true))
deliver_callback_lem_example =
    deliver_callback_lem crypto crypto-IsCrypto (λ d. "{}") (λ u. "/done") "server key" 9 server
      finished "https://alice/done" refl
