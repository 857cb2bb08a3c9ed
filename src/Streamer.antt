-- ===== src/Streamer.antt =====
-- src/fleet_agent/streamer.py: the events that the sidecar posts to the server, and their retries.
pub mod Retries
pub mod Run
use fleet_api.Base.{
  ℕ, zero, suc, ◌+◌, ◌*◌, String, Bool, true, false, not, List, [], ◌∷◌, ltb, min, if◌then◌else◌,
}
use fleet_api.Json.{Dict, empty, entry, str}
use fleet_api.Settings.{Ambient}
use fleet_api.Api.{Request, post_event}

-- an event of the executor, and the server's reading of the clock when its post is served
pub record Emission : Type 0 where
  pub call : Ambient
  pub event_type : String
  pub payload : Dict

abbrev post : String → String → ℕ → Emission → Ambient × Request
post task_id agent n e = (e.call, post_event task_id e.event_type e.payload n agent)

-- `async for event in events`, `sequence` being the number of the event before
unfoldable pub renumber : String → String → ℕ → List Emission → List (Ambient × Request)
renumber task_id agent sequence [] = []
renumber task_id agent sequence (e ∷ es) =
    post task_id agent (sequence + 1) e ∷ renumber task_id agent (sequence + 1) es

abbrev pub running_emission : Ambient → Emission
running_emission call = record {
  call = call;
  event_type = "status";
  payload = entry "status" (str "running") empty;
}

-- `EventStreamer.stream`, as the requests that reach the server
unfoldable pub stream : String → String → Ambient → List Emission → List (Ambient × Request)
unfolding renumber
stream task_id agent call events =
    post task_id agent 1 (running_emission call) ∷ renumber task_id agent 1 events

-- what one POST comes to: a response's status code, or a ConnectError
pub data Response : Type 0 where
  status_code : ℕ → Response
  connect_error : Response

-- the POSTs that were sent, the seconds slept, and whether a response below 500 came
pub record Delivery : Type 0 where
  pub attempts : ℕ
  pub waited : ℕ
  pub is_answered : Bool

abbrev pub max_retries : ℕ
max_retries = 4

abbrev pub base_backoff : ℕ
base_backoff = 1

abbrev pub max_backoff : ℕ
max_backoff = 16

abbrev pub is_final : Response → Bool
is_final (status_code n) = ltb n 500
is_final connect_error = false

-- The loop of `_post_event` with `rounds` left; `server` answers the attempts by their numbers.
unfoldable pub post_rounds : (ℕ → Response) → ℕ → ℕ → ℕ → Delivery
post_rounds server zero attempt backoff = record { attempts = 0; waited = 0; is_answered = false }
post_rounds server (suc rounds) attempt backoff =
    let rest = post_rounds server rounds (attempt + 1) (min (backoff * 2) max_backoff) in
    if is_final (server attempt)
    then record { attempts = 1; waited = 0; is_answered = true }
    else record {
      attempts = rest.attempts + 1;
      waited = (if ltb attempt max_retries then backoff else 0) + rest.waited;
      is_answered = rest.is_answered;
    }

unfoldable pub post_with_retries : (ℕ → Response) → Delivery
unfolding post_rounds
post_with_retries server = post_rounds server (max_retries + 1) 0 base_backoff
