-- ===== src/Examples/Promises.antt =====
-- What responses promise, and what agents can rely on.
use fleet_api.Base.{ℕ, ◌≡◌, refl, none, some, [], ◌∷◌, arith, Option, All}
use fleet_api.Base.Int.{ℤ}
use fleet_api.Json.{Json, num, stamp}
use fleet_api.Agent.{Agent, active}
use fleet_api.Task.Status.{running, accepted, valid_transitions, is_terminal, is_running}
use fleet_api.Task.Row.{Task, transition_to}
use fleet_api.Settings.{default_settings}
use fleet_api.Store.{
  are_numbers_free, has_number, Db, find, find_task, find_agent, perform, commit, replace,
}
use fleet_api.Lifecycle.Access.{fetch_permitted}
use fleet_api.Lifecycle.Pause.{pause_task}
use fleet_api.Registry.{heartbeat, sweep, beat, is_silent}
use fleet_api.Polling.{FuncCase}
use fleet_api.Http.{Response}
use fleet_api.Api.{pause, resume}
use fleet_api.Routes.Answers.{answer, endpoint}
use fleet_api.Routes.Suspension.{pause_response}
use fleet_api.Routes.Expiry.{promised, resumed_code, resumed_status, resume-pause}
use fleet_api.FleetAgent.Poller.{start}
use fleet_api.FleetAgent.Queued.{polled_response, run_polls, run_polls-starts_nothing}
use fleet_api.FleetAgent.Heartbeat.{run_heartbeat}
use fleet_api.FleetAgent.Alive.{run_heartbeat-lives}
use fleet_api.Examples.{ext, at_time, row, stock, agent}
use fleet_api.Examples.Answers.{site}

abbrev going : Task
going = row running none none

abbrev going_db : Db
going_db = stock (going ∷ []) []

abbrev halted : Response × Db
halted = answer ext default_settings site (at_time 5 "") (pause "wf" "t1" "alice" none) going_db

abbrev revived : Response × Db
revived = answer ext default_settings site (at_time 7 "") (resume "wf" "t1" "alice" none) halted.1

resume-pause_example :
    (expiry : ℕ) × (promised halted.0 ≡ some (stamp expiry))
    × (revived.0.status_code ≡ resumed_code 7 expiry)
    × (u : Task) × (find_task "t1" revived.1 ≡ some u)
    × (u.status ≡ resumed_status 7 expiry)
unfolding answer endpoint perform commit are_numbers_free has_number pause_task fetch_permitted find
    is_running transition_to valid_transitions is_terminal pause_response
resume-pause_example =
    resume-pause ext default_settings site (at_time 5 "") (at_time 7 "") going_db halted.1 "wf" "t1"
      "alice" none refl refl refl

abbrev as_int : Json → Option ℤ
as_int (num n) = some n
as_int _ = none

abbrev waiting_db : Db
waiting_db = stock (row accepted none none ∷ []) []

abbrev refusing : FuncCase
refusing whens n = none

run_polls-starts_nothing_example :
    All
      (λ (p : ℕ × Db). (polled_response refusing site "bob" p.0 p.1).status_code ≡ 500)
      ((9, waiting_db) ∷ (14, waiting_db) ∷ [])
    × (run_polls as_int refusing site "bob" 3 ((9, waiting_db) ∷ (14, waiting_db) ∷ []) start
        ≡ (record start { current_backoff = 20 }, []))
unfolding start
run_polls-starts_nothing_example =
    run_polls-starts_nothing as_int refusing site "bob" 3 (λ whens n. refl)
      ((9, waiting_db) ∷ (14, waiting_db) ∷ []) start

abbrev beaten : Agent
beaten = agent "bob" active (some 7)

abbrev beaten_db : Db
beaten_db = record (stock [] []) {
  agents = agent "alice" fleet_api.Agent.AgentStatus.registered none ∷ beaten ∷ [];
}

run_heartbeat-lives_example : find_agent "bob" (sweep 90000007 90 beaten_db) ≡ some beaten
unfolding find heartbeat beat is_silent replace run_heartbeat
run_heartbeat-lives_example =
    run_heartbeat-lives 30 30 1 90 7 90000007 "bob" (stock [] []) beaten_db beaten
      (refl, (refl, tt)) refl (omega arith) (omega arith)
