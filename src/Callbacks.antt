-- ===== src/Callbacks.antt =====
-- src/fleet_api/tasks/callbacks.py, and `sign_callback` of src/fleet_api/crypto.py.
pub mod Deliveries
use fleet_api.Base.{
  ℕ, zero, suc, ◌+◌, String, Bool, true, false, ◌&&◌, Option, none, some, List, [], ◌∷◌, ◌==◌,
  if◌then◌else◌, leb, ltb,
}
use fleet_api.Json.{Json, Dict, empty, entry, str, stamp, null}
use fleet_api.Task.Status.{value}
use fleet_api.Task.Row.{Task}
use fleet_api.Auth.{Crypto, build_signing_string}

abbrev optional_time : Option ℕ → Json
optional_time none = null
optional_time (some t) = stamp t

unfoldable pub build_callback_payload : Task → Dict
unfolding value
build_callback_payload t = entry "task_id" (str t.id) (
    entry "workflow_id" (str t.workflow_id) (
      entry "status" (str (value t.status))
        (entry "result" t.result (entry "completed_at" (optional_time t.completed_at) empty))))

-- what one POST comes to: a response's status code, or an exception
pub data Answer : Type 0 where
  status_code : ℕ → Answer
  exception : Answer

unfoldable pub is_success : Answer → Bool
is_success (status_code n) = leb 200 n && ltb n 300
is_success exception = false

-- the result, the POSTs that were sent, and the seconds slept
pub record Report : Type 0 where
  pub is_delivered : Bool
  pub attempts : ℕ
  pub waited : ℕ

-- RETRY_DELAYS, and nothing after the last attempt
abbrev delay_after : ℕ → ℕ
delay_after zero = 1
delay_after (suc zero) = 2
delay_after (suc (suc zero)) = 4
delay_after (suc (suc (suc _))) = 0

abbrev pub max_attempts : ℕ
max_attempts = 4

-- `for attempt in range(MAX_ATTEMPTS)`, with `rounds` left
unfoldable pub attempt_rounds : (ℕ → Answer) → ℕ → ℕ → Report
unfolding is_success
attempt_rounds server zero attempt = record { is_delivered = false; attempts = 0; waited = 0 }
attempt_rounds server (suc rounds) attempt =
    let later = attempt_rounds server rounds (attempt + 1) in
    if is_success (server attempt)
    then record { is_delivered = true; attempts = 1; waited = 0 }
    else record {
      is_delivered = later.is_delivered;
      attempts = later.attempts + 1;
      waited = delay_after attempt + later.waited;
    }

module _ (c : Crypto) where
  open c use {Bytes, PrivateKey, b64encode, encode, isoformat, sign}

  pub record Post : Type 0 where
    pub url : String
    pub content : Bytes
    pub x_fleet_signature : String
    pub x_fleet_timestamp : String
    pub x_fleet_key_id : String

  unfoldable pub sign_callback : PrivateKey → String → String → String → Bytes → String
  unfolding build_signing_string
  sign_callback k method path timestamp body =
      b64encode (sign k (build_signing_string c method path timestamp body))

  -- `dumps` is `json.dumps`, and `path_of` the path of `urlparse`
  module _ (dumps : Dict → String) (path_of : String → String) where
    -- `parsed.path or "/"`
    abbrev pub callback_path : String → String
    callback_path url = if path_of url == "" then "/" else path_of url

    unfoldable pub callback_post : PrivateKey → ℕ → String → Task → Post
    unfolding sign_callback build_callback_payload
    callback_post k now url t =
        let body = encode (dumps (build_callback_payload t)) in
        record {
          url = url;
          content = body;
          x_fleet_signature = sign_callback k "POST" (callback_path url) (isoformat now) body;
          x_fleet_timestamp = isoformat now;
          x_fleet_key_id = "fleet-api";
        }

    -- The POST that is sent in every attempt, and the report; `server` answers the attempts by their
    -- numbers.
    unfoldable pub deliver_callback :
        PrivateKey → ℕ → (Post → ℕ → Answer) → Task → Option Post × Report
    unfolding callback_post attempt_rounds
    deliver_callback k now server t = elim (t.callback_url) [
      | none ↦ (none, record { is_delivered = true; attempts = 0; waited = 0 })
      | some url ↦
          let post = callback_post k now url t in
          (some post, attempt_rounds (server post) max_attempts 0)
    ]
