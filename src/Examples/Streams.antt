-- ===== src/Examples/Streams.antt =====
-- A stream of two events, and the response for a task.
use fleet_api.Base.{refl, some, none, [], ◌∷◌, select, sort, insert}
use fleet_api.Task.Status.{accepted, completed}
use fleet_api.Task.Row.{TaskEvent}
use fleet_api.Store.{Db}
use fleet_api.EventStream.{task_log, event_stream}
use fleet_api.EventStream.Order.{Grows, ends, grows, after}
use fleet_api.EventStream.Complete.{IsPart, event_stream-IsPart}
use fleet_api.EventStream.Served.{visited, final, event_stream-serve}
use fleet_api.Settings.{default_settings}
use fleet_api.Examples.{row, event, stock, ext, requests}
use fleet_api.Examples.Histories.{stock-IsWellFormed}

abbrev created : TaskEvent
created = event "created" 1

abbrev done : TaskEvent
done = event "completed" 2

abbrev at_first : Db
at_first = stock (row accepted none none ∷ []) (created ∷ [])

abbrev at_last : Db
at_last = stock (row completed (some 2) none ∷ []) (done ∷ created ∷ [])

log-Grows : Grows "t1" [] (at_first ∷ at_last ∷ []) (created ∷ done ∷ [])
unfolding task_log sort select insert
log-Grows = grows (created ∷ []) refl (grows (done ∷ []) refl ends)

event_stream-IsPart_example :
    IsPart (after 0 (created ∷ done ∷ [])) (event_stream "t1" 0 30 at_first (at_last ∷ []))
event_stream-IsPart_example =
    event_stream-IsPart "t1" 0 30 at_first (at_last ∷ []) (created ∷ done ∷ []) log-Grows
      ((refl, tt), (tt, tt))

event_stream-serve_example :
    IsPart
      (after 0 (task_log "t1" (final ext default_settings (stock [] []) (requests ∷ [] ∷ []))))
      (event_stream "t1" 0 30
        (stock [] [])
        (visited ext default_settings (stock [] []) (requests ∷ [] ∷ [])))
event_stream-serve_example =
    event_stream-serve ext default_settings "t1" 0 30 (requests ∷ [] ∷ []) (stock [] [])
      stock-IsWellFormed
