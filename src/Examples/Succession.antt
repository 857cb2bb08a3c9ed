-- ===== src/Examples/Succession.antt =====
-- Retasking and redirecting.
use fleet_api.Base.{◌≡◌, refl, true, none, some, [], ◌∷◌, if◌then◌else◌}
use fleet_api.Errors.{retask_not_reviewable, redirect_not_possible}
use fleet_api.Json.{entry, obj, empty, get}
use fleet_api.Task.Status.{completed, running, retasked, redirected, valid_transitions}
use fleet_api.Task.Row.{Task}
use fleet_api.Settings.{default_settings}
use fleet_api.Store.{Db, find}
use fleet_api.Lifecycle.Access.{fetch_permitted}
use fleet_api.Lifecycle.Retask.{retask_task}
use fleet_api.Lifecycle.Redirect.{redirect_task}
use fleet_api.Lifecycle.Succeeding.{
  view, refused, named_by, chosen, succession, expected_input, expected_metadata, expected_row,
  retask_task_lem, redirect_task_lem,
}
use fleet_api.Examples.{ext, at_time, row, stock}

abbrev finished : Task
finished = row completed (some 3) none

abbrev finished_db : Db
finished_db = stock (finished ∷ []) []

retask_task_lem_example :
    view (
      retask_task ext.digest default_settings
        (at_time 5 "t2")
        finished_db
        "wf"
        "t1"
        "alice"
        empty
        (some "low")
        none)
    ≡ (if valid_transitions completed retasked
        then succession ext.digest 10 5 retasked
            (expected_input finished.input (get "additional_input" empty))
            finished
            (named_by none finished_db)
            (chosen (some "low") finished)
            (expected_row
              (at_time 5 "t2")
              "wf"
              finished
              none
              (expected_input finished.input (get "additional_input" empty))
              (entry "refinement" (obj empty) empty))
        else refused retask_not_reviewable)
unfolding fetch_permitted find
retask_task_lem_example =
    retask_task_lem ext.digest default_settings (at_time 5 "t2") finished_db "wf" "t1" "alice"
      finished refl (some "low") none empty

abbrev going : Task
going = row running none none

abbrev going_db : Db
going_db = stock (going ∷ []) []

redirect_task_lem_example :
    view (
      redirect_task ext.digest default_settings
        (at_time 5 "t2")
        going_db
        "wf"
        "t1"
        "alice"
        "new aim"
        empty
        true
        none
        (some "once"))
    ≡ (if valid_transitions running redirected
        then succession ext.digest 10 5 redirected empty going
            (named_by (some "once") going_db)
            (chosen none going)
            (expected_row
              (at_time 5 "t2")
              "wf"
              going
              (some "once")
              empty
              (expected_metadata "new aim" true going.metadata))
        else refused redirect_not_possible)
unfolding fetch_permitted find
redirect_task_lem_example =
    redirect_task_lem ext.digest default_settings (at_time 5 "t2") going_db "wf" "t1" "alice" going
      refl none (some "once") "new aim" empty true
