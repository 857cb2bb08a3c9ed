-- ===== src/Examples/Answers.antt =====
-- Requests and their responses.
use fleet_api.Base.{◌≡◌, refl, false, none, some, err, [], ◌∷◌, any}
use fleet_api.Errors.{api, retask_not_reviewable, error_status_codes}
use fleet_api.Json.{empty, entry, obj}
use fleet_api.Task.Status.{completed, retasked, valid_transitions, is_terminal, is_reviewable}
use fleet_api.Task.Row.{Task, normal, transition_to}
use fleet_api.Task.Evolution.{moved}
use fleet_api.Settings.{default_settings}
use fleet_api.Store.{
  are_numbers_free, has_number, Db, find, perform, commit, is_insertable, no_work, find_by_key,
}
use fleet_api.Lifecycle.Cancel.{cancel_task}
use fleet_api.Lifecycle.Access.{fetch_permitted}
use fleet_api.Lifecycle.Successor.{Succession, successor, resolve_priority}
use fleet_api.Lifecycle.Retask.{retask_task, retask_new, merged_input}
use fleet_api.Idempotency.{check_optional_key}
use fleet_api.Api.{retask, cancel, serve}
use fleet_api.Api.Replays.{retask_task-again}
use fleet_api.Auth.{require_auth, is_unprotected}
use fleet_api.Http.Refusals.{LosesCode, respond-LosesCode}
use fleet_api.Routes.Answers.{Surroundings, answer, endpoint}
use fleet_api.Routes.Unchanged.{answer-unchanged}
use fleet_api.Examples.{ext, at_time, row, stock}
use fleet_api.Examples.Collation.{crypto}
use fleet_api.Examples.Signing.{known_db, unsigned}

abbrev pub site : Surroundings
site = record {
  message = λ code. "refused";
  suggestion = λ code. none;
  links = λ code. none;
  newest_event_id = λ db. 1;
  str_of = λ j. "value";
}

respond-LosesCode_example :
    LosesCode (λ j. "value") (λ code. code) "GET" "/workflows" "INVALID_SIGNATURE" 401
unfolding require_auth is_unprotected any
respond-LosesCode_example =
    respond-LosesCode (λ j. "value") (λ code. code) "GET" "/workflows" crypto 5 known_db unsigned
      "INVALID_SIGNATURE" 401 refl

abbrev done : Task
done = row completed (some 3) none

abbrev done_db : Db
done_db = stock (done ∷ []) []

abbrev again : Succession
again = record {
  new_task =
      successor (at_time 5 "t2") "wf" done (merged_input done empty) normal (some "twice")
        (entry "refinement" (obj empty) empty);
  original = moved 5 retasked done;
  is_replay = false;
}

retask_task-again_example :
    retask_task ext.digest default_settings
      (at_time 6 "t3")
      (serve ext default_settings
        ((at_time 5 "t2", retask "wf" "t1" "alice" empty none (some "twice")) ∷ [])
        done_db)
      "wf"
      "t1"
      "alice"
      empty
      none
      (some "twice")
    ≡ record { reply = err (api retask_not_reviewable); work = no_work }
unfolding perform commit are_numbers_free has_number is_insertable retask_task retask_new
    fetch_permitted find find_by_key check_optional_key resolve_priority transition_to
    valid_transitions is_terminal is_reviewable successor
retask_task-again_example =
    retask_task-again ext default_settings (at_time 5 "t2") done_db "wf" "t1" "alice" empty empty
      none none (some "twice") (some "twice") again [] (at_time 6 "t3") refl refl

answer-unchanged_example :
    (answer ext default_settings site (at_time 5 "") (cancel "wf" "t1" "bob" none) done_db).1
    ≡ done_db
unfolding answer endpoint perform commit are_numbers_free has_number cancel_task fetch_permitted
    find error_status_codes
answer-unchanged_example =
    answer-unchanged ext default_settings (at_time 5 "") done_db site (cancel "wf" "t1" "bob" none)
      refl
