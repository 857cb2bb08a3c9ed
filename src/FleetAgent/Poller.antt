-- ===== src/FleetAgent/Poller.antt =====
-- src/fleet_agent/poller.py: `TaskPoller`, with the tasks as their identifiers.
use fleet_api.Base.{
  ℕ, ◌*◌, String, Bool, not, List, [], ◌∷◌, ◌==◌, length, leb, ltb, min, any, select, if◌then◌else◌,
}
use fleet_api.FleetAgent.State.{
  SignalState, initial_state, register_task, unregister_task, mark_signal_processed, pop_context,
}
use fleet_api.FleetAgent.Control.{Signal, handle_signal}

-- the poller, and the state that it shares with the signal poller and the executors
pub record Sidecar : Type 0 where
  pub in_flight : List String
  pub current_backoff : ℕ
  pub signals : SignalState

-- seconds
abbrev pub base_backoff : ℕ
base_backoff = 5

abbrev pub max_backoff : ℕ
max_backoff = 60

unfoldable pub start : Sidecar
start = record { in_flight = []; current_backoff = base_backoff; signals = initial_state }

-- What `poll` comes to: the tasks of the response; a ConnectError or HTTPStatusError; another exception
-- before the backoff is reset, or after it, when the response does not validate.
pub data Polled : Type 0 where
  pending : List String → Polled
  unreachable : Polled
  raised_early raised_late : Polled

unfoldable pub poll_backoff : Polled → ℕ → ℕ
poll_backoff (pending tasks) backoff = base_backoff
poll_backoff unreachable backoff = min (backoff * 2) max_backoff
poll_backoff raised_early backoff = backoff
poll_backoff raised_late backoff = base_backoff

abbrev pub is_in_flight : String → List String → Bool
is_in_flight task_id in_flight = any (λ t. t == task_id) in_flight

-- The loop over the tasks of a poll: the tasks in flight, the shared state and what was dispatched.
unfoldable pub dispatch :
    ℕ → List String → List String → SignalState → List String × SignalState × List String
unfolding any register_task
dispatch max_concurrent [] in_flight s = (in_flight, s, [])
dispatch max_concurrent (t ∷ tasks) in_flight s =
    let skipped = dispatch max_concurrent tasks in_flight s in
    let (after, s', started) = dispatch max_concurrent tasks (t ∷ in_flight) (register_task t s) in
    if is_in_flight t in_flight
    then skipped
    else if leb max_concurrent (length in_flight)
    then (in_flight, s, [])
    else (after, s', t ∷ started)

abbrev pending_of : Polled → List String
pending_of (pending tasks) = tasks
pending_of _ = []

-- one pass of the loop of `run`, up to the sleep
unfoldable pub poll_once : ℕ → Polled → Sidecar → Sidecar × List String
unfolding dispatch poll_backoff
poll_once max_concurrent polled a =
    let (in_flight, s, started) =
      dispatch max_concurrent (pending_of polled) a.in_flight a.signals in
    (
      record {
        in_flight = in_flight;
        current_backoff = poll_backoff polled a.current_backoff;
        signals = s;
      },
      started,
    )

-- how long the loop sleeps
unfoldable pub sleep_length : ℕ → Sidecar → ℕ
sleep_length interval a = if ltb base_backoff a.current_backoff then a.current_backoff else interval

-- the `finally` of `_dispatch`
unfoldable pub finish : String → Sidecar → Sidecar
unfolding unregister_task
finish task_id a = record a {
  in_flight = select (λ t. not (t == task_id)) a.in_flight;
  signals = unregister_task task_id a.signals;
}

-- The other code that changes the shared state: the handler of a signal up to its acknowledgement, the
-- note that the signal is processed, and an executor's look for contexts.
unfoldable pub handle : Signal → Sidecar → Sidecar
handle sig a = record a { signals = (handle_signal sig a.signals).0 }

unfoldable pub mark : String → Sidecar → Sidecar
mark key a = record a { signals = mark_signal_processed key a.signals }

unfoldable pub look_for_context : String → Sidecar → Sidecar
look_for_context task_id a = record a { signals = (pop_context task_id a.signals).1 }
