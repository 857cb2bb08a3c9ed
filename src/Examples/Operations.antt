-- ===== src/Examples/Operations.antt =====
-- Single operations on a task.
use fleet_api.Base.{◌≡◌, refl, none, some, [], ◌∷◌, true, is_ok, not, ◌&&◌}
use fleet_api.Json.{empty}
use fleet_api.Task.Status.{paused}
use fleet_api.Settings.{default_settings}
use fleet_api.Store.{Db, find, find_task, find_workflow}
use fleet_api.Context.{Injection, inject_context}
use fleet_api.Lifecycle.Access.{fetch_permitted}
use fleet_api.Lifecycle.Cancel.{cancel_task}
use fleet_api.Lifecycle.Pause.{pause_task}
use fleet_api.Lifecycle.Resume.{resume_task}
use fleet_api.Lifecycle.Retask.{retask_task}
use fleet_api.Lifecycle.Redirect.{redirect_task}
use fleet_api.Lifecycle.Cancellation.{cancel_reply, cancel_task_lem}
use fleet_api.Lifecycle.Suspension.{seen, resume_view, resume_task_lem}
use fleet_api.Links.Offers.{
  has_link, is_new_number, is_not_paused, is_not_reviewable, is_not_redirectable,
  build_task_links_lem,
}
use fleet_api.Examples.{ext, at_time, row, stock}

abbrev paused_db : Db
paused_db = stock (row paused none (some 1) ∷ []) []

cancel_task_lem_example :
    (cancel_task (at_time 5 "") paused_db "wf" "t1" "alice" none).reply
    ≡ cancel_reply 5 "wf" "alice" (find_workflow "wf" paused_db) (find_task "t1" paused_db)
cancel_task_lem_example = cancel_task_lem (at_time 5 "") paused_db "wf" "t1" "alice" none

resume_task_lem_example :
    seen (resume_task default_settings (at_time 5 "") paused_db "wf" "t1" "alice" (some "high"))
    ≡ resume_view default_settings 5 "wf" "alice"
        (some "high")
        (find_workflow "wf" paused_db)
        (find_task "t1" paused_db)
resume_task_lem_example =
    resume_task_lem default_settings (at_time 5 "") paused_db "wf" "t1" "alice" (some "high")

abbrev note : Injection
note = record { context_type = "note"; payload = empty; sequence = 1; urgency = "normal" }

build_task_links_lem_example :
    let t = row paused none (some 1) in
    let call = at_time 5 "t2" in
    (is_ok (cancel_task call paused_db "wf" "t1" "alice" none).reply ≡ has_link "cancel" t)
    × (is_ok (pause_task default_settings call paused_db "wf" "t1" "alice" none).reply
        ≡ has_link "pause" t)
    × (is_not_paused (resume_task default_settings call paused_db "wf" "t1" "alice" none).reply
        ≡ not (has_link "resume" t))
    × (is_not_redirectable
          (redirect_task ext.digest default_settings call paused_db "wf" "t1" "alice" "why" empty
            true none none).reply
        ≡ not (has_link "redirect" t))
    × (is_not_reviewable
          (retask_task ext.digest default_settings call paused_db "wf" "t1" "alice" empty none
            none).reply
        ≡ not (has_link "retask" t))
    × (is_ok (inject_context ext.int_of call paused_db "wf" "t1" "alice" note).reply
        ≡ (has_link "context" t && is_new_number ext.int_of "t1" paused_db note))
unfolding fetch_permitted find
build_task_links_lem_example =
    build_task_links_lem (at_time 5 "t2") paused_db "wf" "t1" "alice" (row paused none (some 1))
      refl ext default_settings none none none "why" empty true note
