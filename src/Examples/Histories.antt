-- ===== src/Examples/Histories.antt =====
-- Sequences of requests.
use fleet_api.Base.{String, ◌≡◌, refl, none, some, List, [], ◌∷◌, true, false, is_ok, length, arith}
use mathlib.Core.List.{reverse}
use fleet_api.Json.{entry, str, obj, empty}
use fleet_api.Task.Status.{accepted, running, is_terminal, parse, valid_transitions}
use fleet_api.Task.Row.{Task, transition_to, parse_priority}
use fleet_api.Settings.{default_settings}
use fleet_api.Store.{
  are_numbers_free, has_number, Db, find, find_task, max_sequence, no_work, find_by_key, perform,
  commit, is_insertable, replace,
}
use fleet_api.Store.WellFormed.{IsWellFormed}
use fleet_api.Crud.{create_task, create_new, new_row, created_event, Dispatch}
use fleet_api.Api.{run, post_event, handle, serve}
use fleet_api.Api.Invariant.{serve-IsWellFormed}
use fleet_api.Api.History.{Continues, task_history}
use fleet_api.Api.Keys.{create_task-replays, key_reply}
use fleet_api.Api.Sequences.{accepted-is_last}
use fleet_api.Sidecar.{
  process_sidecar_event, process_event, is_valid_event_type, on_status, on_completed,
}
use fleet_api.Streamer.{Emission, stream}
use fleet_api.Streamer.Run.{stream-stays_accepted}
use fleet_api.Lifecycle.Retask.{retask_task, retask_new}
use fleet_api.Lifecycle.Lineage.{build_lineage_chain}
use fleet_api.Lifecycle.Chain.{Ancestry, build_lineage_chain_lem}
use fleet_api.Idempotency.{check_optional_key}
use fleet_api.Lifecycle.Access.{fetch_permitted}
use fleet_api.Examples.{ext, at_time, order, row, event, workflow, stock, requests}

pub stock-IsWellFormed : IsWellFormed 10 (stock [] [])
unfolding find max_sequence
stock-IsWellFormed = record {
  closed = λ k t h. cc;
  depth_bounded = λ k t h. cc;
  lineage = λ k t h. cc;
  one_child = λ j k p s t h h' ps pt. cc;
  events_known = λ k h. refl;
  events_ordered = tt;
}

serve-IsWellFormed_example : IsWellFormed 10 (serve ext default_settings requests (stock [] []))
serve-IsWellFormed_example =
    serve-IsWellFormed ext default_settings requests (stock [] []) stock-IsWellFormed

task_history_example :
    (t' : Task) × (find_task "t1"
        (serve ext default_settings requests (stock (row running none none ∷ []) []))
      ≡ some t')
    × Continues (row running none none) t'
unfolding find
task_history_example =
    task_history ext default_settings requests (stock (row running none none ∷ []) []) "t1"
      (row running none none) refl

create_task-replays_example :
    (t' : Task) × Continues (row running none none) t'
    × (create_task ext.conforms ext.digest
          (at_time 9 "t9")
          (serve ext default_settings requests (stock (row running none none ∷ []) []))
          order
        ≡ record { reply = key_reply ext default_settings order workflow t' true; work = no_work })
unfolding find find_by_key
create_task-replays_example =
    create_task-replays ext default_settings requests (stock (row running none none ∷ []) [])
      (at_time 9 "t9") order "once" (row running none none) workflow refl refl refl

abbrev after : Db
after = serve ext default_settings requests (stock [] [])

-- the task that the last request creates
abbrev second_task : Task
second_task = record (row accepted none none) {
  id = "t2";
  parent_task_id = some "t1";
  root_task_id = some "t1";
  lineage_depth = 1;
  idempotency_key = none;
  created_at = 4;
  metadata = some (entry "refinement" (obj empty) empty);
}

build_lineage_chain_lem_example :
    (ids : List String) × Ancestry after second_task ids
    × (build_lineage_chain after second_task ≡ reverse ("t2" ∷ ids))
    × (length ids ≡ 1)
unfolding serve handle perform commit are_numbers_free has_number create_task create_new new_row
    created_event find find_by_key process_sidecar_event process_event retask_task retask_new
    fetch_permitted is_valid_event_type check_optional_key parse_priority is_insertable max_sequence
    on_status parse transition_to valid_transitions replace is_terminal on_completed
build_lineage_chain_lem_example =
    build_lineage_chain_lem 10 after
      (serve-IsWellFormed ext default_settings requests (stock [] []) stock-IsWellFormed)
      second_task refl

accepted-is_last_example :
    let db' = serve ext default_settings requests (
      handle ext default_settings
        (at_time 5 "")
        (post_event "t1" "log" empty 3 "bob")
        (stock (row running none none ∷ []) (event "created" 1 ∷ []))) in
    (is_ok
        (process_sidecar_event ext.in_place (at_time 6 "") db' "t1" "completed" empty 2 "bob").reply
      ≡ false)
    × ((process_sidecar_event ext.in_place (at_time 6 "") db' "t1" "completed" empty 2 "bob").work
        ≡ no_work)
unfolding process_sidecar_event process_event find max_sequence is_valid_event_type
accepted-is_last_example =
    accepted-is_last ext default_settings (at_time 5 "") (at_time 6 "")
      (stock (row running none none ∷ []) (event "created" 1 ∷ [])) "t1" "log" "completed" "bob"
      "bob" empty empty 3 2 requests refl (omega arith)

abbrev dispatched : Dispatch
dispatched = record { task = row accepted none none; workflow = workflow; is_replay = false }

abbrev outcome_events : List Emission
outcome_events =
    record {
      call = at_time 3 "";
      event_type = "progress";
      payload = entry "progress" (str "50") empty;
    }
    ∷ record { call = at_time 4 ""; event_type = "completed"; payload = empty }
    ∷ []

stream-stays_accepted_example :
    (t : Task) × (find_task "t1" (
        serve ext default_settings
          (stream "t1" "bob" (at_time 2 "") outcome_events)
          (handle ext default_settings (at_time 1 "t1") (run order) (stock [] [])))
      ≡ some t)
    × (t.status ≡ accepted)
unfolding perform commit are_numbers_free has_number create_task create_new new_row find find_by_key
    check_optional_key parse_priority is_insertable
stream-stays_accepted_example =
    stream-stays_accepted ext default_settings (at_time 1 "t1") (at_time 2 "") (stock [] []) order
      dispatched "bob" outcome_events refl refl ((refl, refl), ((refl, refl), tt))
