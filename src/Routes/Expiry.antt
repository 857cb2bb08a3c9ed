-- ===== src/Routes/Expiry.antt =====
-- The time that the response to a pause promises, against what a resumption then does.
use fleet_api.Base.{
  ℕ, ◌+◌, ◌*◌, ◌≡◌, ◌≢◌, refl, String, Option, none, some, Result, ok, err, true, arith, leb, ◌∙◌,
  if◌then◌else◌, ◌==◌, eq_iff, Bool-cases, inl, inr,
}
use fleet_api.Base.Int.{second}
use fleet_api.Errors.{ErrorCode, error_status_codes}
use fleet_api.Settings.{Settings, Ambient}
use fleet_api.Json.{in_object, Json, stamp, get}
use fleet_api.Store.{
  are_numbers_free, has_number-next, Db, perform, commit, find_task, replace, find-replace, id-find,
  find_workflow,
}
use fleet_api.Task.Status.{
  TaskStatus, paused, cancelled, running, is_running, valid_transitions, is_terminal, is_paused,
}
use fleet_api.Task.Row.{Task, transition_to}
use fleet_api.Lifecycle.Access.{fetch_permitted, fetch_permitted-eq-ok}
use fleet_api.Lifecycle.Pause.{pause_task}
use fleet_api.Lifecycle.Resume.{resume_task, continue_task, auto_cancel, with_priority}
use fleet_api.Api.{Externals, pause, resume}
use fleet_api.Api.Superseded.{fetch_permitted_again}
use fleet_api.Http.{Response, respond, fleet_api_error_handler}
use fleet_api.Routes.Answers.{Surroundings, answer, endpoint}
use fleet_api.Routes.Suspension.{pause_response, pause_state, resume_response}

-- the time of expiry that a body names
abbrev pub promised : Response → Option Json
promised r = in_object "expires_at" (get "paused_state" r.content)

no_error_200 : (code : ErrorCode) → error_status_codes code ≢ 200
unfolding error_status_codes
no_error_200 code h = ground arith

-- what becomes of a task that is paused until `expiry`, at the time `now`
abbrev pub resumed_status : ℕ → ℕ → TaskStatus
resumed_status now expiry = if leb now expiry then running else cancelled

abbrev pub resumed_code : ℕ → ℕ → ℕ
resumed_code now expiry = if leb now expiry then 200 else 408

abbrev halted : ℕ → Task → Task
halted now t = record t { status = paused; paused_at = some now }

abbrev expiry_of : Settings → ℕ → ℕ
expiry_of settings now = now + settings.fleet_pause_ttl_seconds * second

module _ (ext : Externals) (settings : Settings) (site : Surroundings) (call : Ambient) (db : Db)
    (wf k by : String) where
  -- A pause that is answered with 200: the caller was permitted, the task ran, and its row is paused.
  answered_pause :
      (reason : Option String) (t : Task)
      → fetch_permitted db wf k by ≡ ok t
      → (answer ext settings site call (pause wf k by reason) db).0.status_code ≡ 200
      → let a = answer ext settings site call (pause wf k by reason) db in
        (promised a.0 ≡ some (stamp (expiry_of settings call.now)))
        × (a.1.tasks ≡ replace (λ (x : Task). x.id) (halted call.now t) db.tasks)
  unfolding answer endpoint perform pause_task transition_to valid_transitions is_terminal
      is_running commit are_numbers_free respond fleet_api_error_handler error_status_codes
      pause_response pause_state get
  answered_pause reason t may h = elim (Bool-cases (is_running t.status)) [
    | inl e ↦ ground (arith, may, has_number-next t.id db.events)
    | inr e ↦ absurd (ground (arith, may, has_number-next t.id db.events))
  ]

  pause_permitted :
      (reason : Option String)
      → (answer ext settings site call (pause wf k by reason) db).0.status_code ≡ 200
      → (t : Task) × (fetch_permitted db wf k by ≡ ok t)
  unfolding answer endpoint perform pause_task commit respond fleet_api_error_handler
  pause_permitted reason h = split (fetch_permitted db wf k by) refl
    where
      split :
          (r : Result ErrorCode Task)
          → fetch_permitted db wf k by ≡ r
          → (t : Task) × (fetch_permitted db wf k by ≡ ok t)
      split (err e) eq = absurd (ground (arith, eq, no_error_200 e))
      split (ok t) eq = (t, eq)

  -- the resumption of a task that is paused since `since`
  answered_resume :
      (t : Task) (since : ℕ)
      → fetch_permitted db wf k by ≡ ok t
      → t.status ≡ paused
      → t.paused_at ≡ some since
      → let a = answer ext settings site call (resume wf k by none) db in
        let expiry = expiry_of settings since in
        (a.0.status_code ≡ resumed_code call.now expiry)
        × (u : Task) × (a.1.tasks ≡ replace (λ (x : Task). x.id) u db.tasks)
        × (u.id ≡ t.id)
        × (u.status ≡ resumed_status call.now expiry)
  unfolding answer endpoint perform resume_task continue_task auto_cancel with_priority
      transition_to valid_transitions is_terminal is_paused commit are_numbers_free respond
      fleet_api_error_handler error_status_codes resume_response
  answered_resume t since may st p = elim (Bool-cases (leb call.now (expiry_of settings since))) [
    | inl e ↦ (
      ground (arith, may, has_number-next t.id db.events),
      record t { status = running; paused_at = none },
      ground (arith, may, has_number-next t.id db.events),
      refl,
      ground (arith, may, has_number-next t.id db.events),
    )
    | inr e ↦ (
      ground (arith, may, has_number-next t.id db.events),
      record t { status = cancelled; completed_at = some call.now },
      ground (arith, may, has_number-next t.id db.events),
      refl,
      ground (arith, may, has_number-next t.id db.events),
    )
  ]

-- the row that a replacement leaves under its key
find_replaced :
    (k : String) (u t : Task) (old new : Db)
    → find_task k old ≡ some t
    → u.id ≡ t.id
    → new.tasks ≡ replace (λ (x : Task). x.id) u old.tasks
    → find_task k new ≡ some u
find_replaced k u t old new there same e =
    let id : t.id ≡ k = id-find (λ (x : Task). x.id) k old.tasks t there in
    let hit : (u.id == k) ≡ true = (eq_iff u.id k).1 (same ∙ id) in
    rw e (rw (find-replace (λ (x : Task). x.id) k u old.tasks) (rw (hit, there) refl))

module _ (ext : Externals) (settings : Settings) (site : Surroundings) (call call' : Ambient)
    (db db' : Db) (wf k by : String) (reason : Option String) where
  -- the two requests, each with its response and the database after it
  abbrev pub pausing : Response × Db
  pausing = answer ext settings site call (pause wf k by reason) db

  abbrev pub resuming : Response × Db
  resuming = answer ext settings site call' (resume wf k by none) db'

  -- When a pause is answered with 200, its response names a time of expiry. If the task's row and the
  -- workflow are then as the pause has left them, a resumption by the same caller, without a priority,
  -- is answered with 200 and has the task running up to that time; after it, it is answered with 408
  -- and has the task cancelled.
  pub resume-pause :
      pausing.0.status_code ≡ 200
      → find_task k db' ≡ find_task k pausing.1
      → find_workflow wf db' ≡ find_workflow wf db
      → (expiry : ℕ) × (promised pausing.0 ≡ some (stamp expiry))
        × (resuming.0.status_code ≡ resumed_code call'.now expiry)
        × (u : Task) × (find_task k resuming.1 ≡ some u)
        × (u.status ≡ resumed_status call'.now expiry)
  resume-pause h row flow =
      let (t, may) = pause_permitted ext settings site call db wf k by reason h in
      let (told, tasks) = answered_pause ext settings site call db wf k by reason t may h in
      let (there, _) = fetch_permitted-eq-ok db wf k by t may in
      let left : find_task k db' ≡ some (halted call.now t) =
        row ∙ find_replaced k (halted call.now t) t db pausing.1 there refl tasks in
      let (code, u, rows, same, st) =
        answered_resume ext settings site call' db' wf k by (halted call.now t) call.now
          (fetch_permitted_again db db' wf k by t (halted call.now t) may flow left refl) refl
          refl in
      (
        expiry_of settings call.now,
        told,
        code,
        u,
        find_replaced k u (halted call.now t) db' resuming.1 left same rows,
        st,
      )
