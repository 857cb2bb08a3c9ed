-- ===== src/Examples/Newcomers.antt =====
-- A successor in its lineage, and an agent that has just registered.
use fleet_api.Base.{◌≡◌, refl, some, none, ok, List, [], ◌∷◌, any, arith}
use fleet_api.Errors.{error_status_codes}
use fleet_api.Json.{entry, str, empty}
use fleet_api.Task.Status.{valid_transitions, is_terminal, is_reviewable, parse}
use fleet_api.Task.Row.{transition_to, parse_priority}
use fleet_api.Settings.{Ambient, default_settings}
use fleet_api.Store.{
  are_numbers_free, has_number, Db, find, perform, commit, is_insertable, replace, find_by_key,
  max_sequence,
}
use fleet_api.Agent.{Agent}
use fleet_api.Registry.{Registration, register_agent, new_agent}
use fleet_api.Auth.{require_auth, database_lookup, is_unprotected}
use fleet_api.Lifecycle.Access.{fetch_permitted}
use fleet_api.Lifecycle.Retask.{retask_task, retask_new}
use fleet_api.Lifecycle.Successor.{successor, resolve_priority}
use fleet_api.Crud.{create_task, create_new, new_row}
use fleet_api.Sidecar.{
  process_sidecar_event, process_event, is_valid_event_type, on_status, on_completed,
}
use fleet_api.Idempotency.{check_optional_key, check_idempotency}
use fleet_api.Api.{Request as Sent, run, post_event, retask, serve, handle}
use fleet_api.Api.Invariant.{serve-IsWellFormed}
use fleet_api.Routes.Answers.{answer, endpoint}
use fleet_api.Routes.Succession.{retask_response}
use fleet_api.Routes.Lineage.{IsLineageTold, answer-IsLineageTold}
use fleet_api.Agents.Schema.{
  is_accepted_body, validate_agent_id, validate_public_key, is_agent_id_match,
}
use fleet_api.Agents.Trust.{register_agent-require_auth}
use fleet_api.Examples.{ext, at_time, order, stock}
use fleet_api.Examples.Answers.{site}
use fleet_api.Examples.Collation.{crypto, crypto-IsCrypto}
use fleet_api.Examples.Signing.{request}
use fleet_api.Examples.Histories.{stock-IsWellFormed}

-- a task is created, started and completed
abbrev work : List (Ambient × Sent)
work =
    (at_time 1 "t1", run order)
    ∷ (at_time 2 "", post_event "t1" "status" (entry "status" (str "running") empty) 2 "bob")
    ∷ (at_time 3 "", post_event "t1" "completed" (entry "result" (str "2") empty) 3 "bob")
    ∷ []

abbrev worked : Db
worked = serve ext default_settings work (stock [] [])

answer-IsLineageTold_example :
    let a =
      answer ext default_settings site
        (at_time 4 "t2")
        (retask "wf" "t1" "alice" empty none none)
        worked in
    IsLineageTold a.1 "t1" a.0
unfolding answer endpoint perform commit are_numbers_free has_number retask_task retask_new
    resolve_priority fetch_permitted find serve handle process_sidecar_event is_valid_event_type
    create_task create_new new_row check_optional_key check_idempotency find_by_key parse_priority
    is_insertable max_sequence process_event on_status on_completed parse transition_to
    valid_transitions replace is_terminal is_reviewable successor retask_response error_status_codes
answer-IsLineageTold_example =
    answer-IsLineageTold ext default_settings site (at_time 4 "t2") worked
      (serve-IsWellFormed ext default_settings work (stock [] []) stock-IsWellFormed)
      (retask "wf" "t1" "alice" empty none none) "t1" refl refl

-- the body that bob registers with, and the row that it makes
abbrev body : Registration
body = record {
  agent_id = "bob";
  public_key = "bob's key";
  display_name = none;
  capabilities = none;
  endpoint = none;
}

abbrev newcomer : Agent
newcomer = new_agent 1 body

register_agent-require_auth_example :
    require_auth crypto 5
      (database_lookup crypto (record (stock [] []) { agents = newcomer ∷ [] }))
      request
    ≡ ok (some (record { agent_id = "bob"; public_key = "bob's key" }))
unfolding register_agent new_agent is_accepted_body validate_agent_id validate_public_key
    is_agent_id_match is_unprotected any find
register_agent-require_auth_example =
    register_agent-require_auth (λ s. s) crypto crypto-IsCrypto (λ b. 32) 1 3 5 body
      (record (stock [] []) { agents = [] }) (record (stock [] []) { agents = newcomer ∷ [] })
      newcomer "bob's key" "bob's key" request refl refl refl refl refl (omega arith) refl refl refl
