-- ===== src/Examples/Overlaps.antt =====
-- Requests that overlap.
use fleet_api.Base.{◌≡◌, refl, false, none, some, ok, err, [], ◌∷◌}
use fleet_api.Errors.{integrity}
use fleet_api.Json.{empty}
use fleet_api.Task.Status.{completed, running, valid_transitions, is_terminal, is_reviewable}
use fleet_api.Task.Row.{Task, normal, transition_to, parse_priority}
use fleet_api.Settings.{default_settings}
use fleet_api.Store.{
  are_numbers_free, has_number, Db, find, perform, commit, is_insertable, replace, find_by_key,
  max_sequence,
}
use fleet_api.Crud.{Dispatch, create_task, create_new, new_row}
use fleet_api.Sidecar.{
  Receipt, process_sidecar_event, process_event, is_valid_event_type, event_record,
}
use fleet_api.Lifecycle.Access.{fetch_permitted}
use fleet_api.Lifecycle.Successor.{successor, resolve_priority}
use fleet_api.Lifecycle.Retask.{retask_task, retask_new}
use fleet_api.Idempotency.{check_optional_key, check_idempotency}
use fleet_api.Routes.{answered}
use fleet_api.Routes.Run.{run_response}
use fleet_api.Routes.Answers.{finished}
use fleet_api.Races.{overlapping}
use fleet_api.Races.Posts.{process_sidecar_event-overlapping}
use fleet_api.Races.Submissions.{create_task-overlapping}
use fleet_api.Races.Principals.{work_of-overlapping}
use fleet_api.Api.{work_of, handle, retask}
use fleet_api.Examples.{ext, at_time, order, row, stock, workflow}
use fleet_api.Examples.Answers.{site}

abbrev going_db : Db
going_db = stock (row running none none ∷ []) []

abbrev logged : Receipt
logged = record {
  event = event_record (at_time 5 "") "t1" "log" empty 2;
  task = row running none none;
  is_callback_scheduled = false;
}

process_sidecar_event-overlapping_example :
    let post =
      process_sidecar_event ext.in_place (at_time 5 "") going_db "t1" "log" empty 2 "bob" in
    ((overlapping post post going_db).0 ≡ ok logged)
    × ((overlapping post post going_db).1 ≡ err integrity)
    × ((overlapping post post going_db).2.events
        ≡ event_record (at_time 5 "") "t1" "log" empty 2 ∷ going_db.events)
unfolding process_sidecar_event is_valid_event_type find max_sequence process_event is_terminal
process_sidecar_event-overlapping_example =
    process_sidecar_event-overlapping ext.in_place (at_time 5 "") (at_time 5 "") going_db "t1" "bob"
      "log" "log" empty empty 2 2 logged logged refl refl

abbrev made : Dispatch
made = record {
  task = new_row (at_time 1 "t1") order workflow normal;
  workflow = workflow;
  is_replay = false;
}

abbrev made_too : Dispatch
made_too = record {
  task = new_row (at_time 2 "t2") order workflow normal;
  workflow = workflow;
  is_replay = false;
}

create_task-overlapping_example :
    let db = stock [] [] in
    let first = create_task ext.conforms ext.digest (at_time 1 "t1") db order in
    let second = create_task ext.conforms ext.digest (at_time 2 "t2") db order in
    let (told, told', db'') = overlapping first second db in
    (told ≡ ok made)
    × (told' ≡ err integrity)
    × (db'' ≡ (perform first db).1)
    × ((finished site (answered (told', db'') (λ e _. run_response (some "once") e))).0.status_code
        ≡ 500)
unfolding create_task create_new new_row check_optional_key check_idempotency find_by_key find
    parse_priority perform commit are_numbers_free has_number is_insertable
create_task-overlapping_example =
    create_task-overlapping ext (at_time 1 "t1") (at_time 2 "t2") (stock [] []) order order "once"
      site made made_too refl refl refl refl refl refl

abbrev done : Task
done = row completed (some 3) none

abbrev done_db : Db
done_db = stock (done ∷ []) []

-- The database after the first of two retasks.
abbrev retasked_db : Db
retasked_db =
    handle ext default_settings (at_time 5 "t2") (retask "wf" "t1" "alice" empty none none) done_db

work_of-overlapping_example :
    perform
      (retask_task ext.digest default_settings
        (at_time 6 "t3")
        done_db
        "wf"
        "t1"
        "alice"
        empty
        none
        none)
      retasked_db
    ≡ (err integrity, retasked_db)
unfolding work_of handle perform commit are_numbers_free has_number is_insertable retask_task
    retask_new fetch_permitted find check_optional_key resolve_priority transition_to
    valid_transitions is_terminal is_reviewable successor replace max_sequence
work_of-overlapping_example =
    work_of-overlapping ext default_settings (at_time 5 "t2") (at_time 6 "t3") done_db "t1"
      (retask "wf" "t1" "alice" empty none none) (retask "wf" "t1" "alice" empty none none)
      retasked_db
      (retask_task ext.digest default_settings (at_time 6 "t3") done_db "wf" "t1" "alice" empty none
        none)
      refl refl refl refl refl refl
