-- ===== src/Api/Sequences.antt =====
-- The sequence numbers of a task's events over any sequence of requests.
use fleet_api.Base.{
  ℕ, ◌≤◌, ◌≡◌, ap, inl, inr, List, [], ◌∷◌, ◌++◌, String, ok, true, false, arith, is_ok, eq_refl,
}
use fleet_api.Json.{Dict}
use fleet_api.Task.Row.{TaskEvent}
use fleet_api.Settings.{Settings, Ambient}
use fleet_api.Store.{
  are_numbers_free, has_number-above, Db, Outcome, no_work, max_sequence, perform, commit,
}
use fleet_api.Store.Kept.{events_after}
use fleet_api.Sidecar.{Receipt, process_sidecar_event, event_record}
use fleet_api.Crud.{NewTask, Dispatch, create_task, create_new, created_event, new_row}
use fleet_api.Api.{Externals, Request, run, post_event, handle, serve, work_of}
use fleet_api.Api.Commits.{handle-cases, work_of-IsLawful}

max_sequence-append :
    (k : String) (new old : List TaskEvent) → max_sequence k old ≤ max_sequence k (new ++ old)
unfolding max_sequence
max_sequence-append k [] old = omega arith
max_sequence-append k (e ∷ es) old = ground (arith, max_sequence-append k es old)

module _ (ext : Externals) (settings : Settings) where
  handle-max_sequence :
      (call : Ambient) (r : Request) (db : Db) (k : String)
      → max_sequence k db.events ≤ max_sequence k (handle ext settings call r db).events
  handle-max_sequence call r db k = elim (handle-cases ext settings call db r) [
    | inl same ↦ omega (arith, ap (λ (d : Db). max_sequence k d.events) same)
    | inr done ↦ omega (
      arith,
      ap (max_sequence k) (events_after db _ _ _ (work_of-IsLawful ext settings call db r) done),
      max_sequence-append k (work_of ext settings call r db).new_events db.events,
    )
  ]

  pub serve-max_sequence :
      (rs : List (Ambient × Request)) (db : Db) (k : String)
      → max_sequence k db.events ≤ max_sequence k (serve ext settings rs db).events
  unfolding serve
  serve-max_sequence [] db k = omega arith
  serve-max_sequence ((call, r) ∷ rs) db k = omega (
    arith,
    handle-max_sequence call r db k,
    serve-max_sequence rs (handle ext settings call r db) k,
  )

  -- a post that is refused, and leaves nothing to commit
  abbrev IsRefused : Outcome Receipt → Type 0
  IsRefused o = (is_ok o.reply ≡ false) × (o.work ≡ no_work)

  stale-IsRefused :
      (call : Ambient) (db : Db) (k event_type agent : String) (payload : Dict) (n : ℕ)
      → n ≤ max_sequence k db.events
      → IsRefused (process_sidecar_event ext.in_place call db k event_type payload n agent)
  unfolding process_sidecar_event
  stale-IsRefused call db k event_type agent payload n h = ground arith

  accepted_recorded :
      (call : Ambient) (db : Db) (k event_type agent : String) (payload : Dict) (n : ℕ)
      → is_ok (process_sidecar_event ext.in_place call db k event_type payload n agent).reply ≡ true
      → n
        ≤ max_sequence k
            (handle ext settings call (post_event k event_type payload n agent) db).events
  unfolding process_sidecar_event event_record handle perform commit max_sequence are_numbers_free
  accepted_recorded call db k event_type agent payload n h =
      ground (arith, eq_refl k, has_number-above k n db.events)

  created_recorded :
      (call : Ambient) (db : Db) (args : NewTask) (d : Dispatch)
      → (perform (create_task ext.conforms ext.digest call db args) db).0 ≡ ok d
      → d.is_replay ≡ false
      → 1 ≤ max_sequence d.task.id (handle ext settings call (run args) db).events
  unfolding create_task create_new created_event new_row handle perform commit max_sequence
  created_recorded call db args d h f = ground (arith, eq_refl call.new_id)

  -- Once the server has accepted an event number n of a task, every later post for the task with a
  -- number up to n is refused and writes nothing, whatever is served in between.
  pub accepted-is_last :
      (call call' : Ambient) (db : Db) (k event_type event_type' agent agent' : String)
      (payload payload' : Dict) (n m : ℕ) (rs : List (Ambient × Request))
      → is_ok (process_sidecar_event ext.in_place call db k event_type payload n agent).reply ≡ true
      → m ≤ n
      → let db' =
          serve ext settings rs
            (handle ext settings call (post_event k event_type payload n agent) db) in
        (is_ok (process_sidecar_event ext.in_place call' db' k event_type' payload' m agent').reply
          ≡ false)
        × ((process_sidecar_event ext.in_place call' db' k event_type' payload' m agent').work
            ≡ no_work)
  accepted-is_last call call' db k event_type event_type' agent agent' payload payload' n m rs h
        le =
      stale-IsRefused call' _ k event_type' agent' payload' m (
        omega (
          arith,
          le,
          accepted_recorded call db k event_type agent payload n h,
          serve-max_sequence rs
              (handle ext settings call (post_event k event_type payload n agent) db) k,
        ))

  -- After a submission that has created a task, whatever is served since, an event number 0 or 1 of
  -- the task is refused and writes nothing: the number 1 is that of its own "created" event.
  pub first_event-refused :
      (call call' : Ambient) (db : Db) (args : NewTask) (d : Dispatch) (event_type agent : String)
      (payload : Dict) (m : ℕ) (rs : List (Ambient × Request))
      → (perform (create_task ext.conforms ext.digest call db args) db).0 ≡ ok d
      → d.is_replay ≡ false
      → m ≤ 1
      → let db' = serve ext settings rs (handle ext settings call (run args) db) in
        (is_ok
            (process_sidecar_event ext.in_place call' db' d.task.id event_type payload m
              agent).reply
          ≡ false)
        × ((process_sidecar_event ext.in_place call' db' d.task.id event_type payload m agent).work
            ≡ no_work)
  first_event-refused call call' db args d event_type agent payload m rs h f le =
      stale-IsRefused call' _ d.task.id event_type agent payload m (
        omega (
          arith,
          le,
          created_recorded call db args d h f,
          serve-max_sequence rs (handle ext settings call (run args) db) d.task.id,
        ))
