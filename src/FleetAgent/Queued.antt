-- ===== src/FleetAgent/Queued.antt =====
-- The sidecar's polls of the server's queue.
use fleet_api.Base.{
  ℕ, zero, suc, ◌*◌, ◌≡◌, refl, ap, String, Option, none, some, List, [], ◌∷◌, ◌++◌, map, err, min,
  arith, ltb, eq_refl, length, All, if◌then◌else◌,
}
use fleet_api.Base.Int.{ℤ}
use fleet_api.Json.{Json, obj}
use fleet_api.Errors.{uncaught, Reply}
use fleet_api.Task.Row.{TaskPriority}
use fleet_api.Store.{Db}
use fleet_api.Polling.{FuncCase, get_pending_tasks, priority_whens}
use fleet_api.Http.{Response, respond, unhandled_exception_handler}
use fleet_api.Routes.Answers.{Surroundings, finished}
use fleet_api.Agents.Responses.{pending_endpoint}
use fleet_api.FleetAgent.Pending.{PendingTask, poll}
use fleet_api.FleetAgent.Poller.{
  Sidecar, Polled, pending, unreachable, raised_late, poll_once, poll_backoff, dispatch,
  max_backoff,
}

-- `func.case` makes a call of a SQL function, whose only keyword argument is `type_`: with `else_` it
-- raises a TypeError.
abbrev pub RefusesElse : FuncCase → Type 0
RefusesElse func_case = (whens : List (TaskPriority × ℕ)) (n : ℕ) → func_case whens n ≡ none

module _ (func_case : FuncCase) (site : Surroundings) (agent_id : String) where
  -- the response to the agent's poll
  abbrev pub polled_response : ℕ → Db → Response
  polled_response now db =
      (finished site (pending_endpoint func_case now agent_id agent_id db, db)).0

  endpoint_raises :
      RefusesElse func_case
      → (now : ℕ) (db : Db) → pending_endpoint func_case now agent_id agent_id db ≡ err uncaught
  unfolding pending_endpoint get_pending_tasks
  endpoint_raises refuses now db = ground (arith, eq_refl agent_id, refuses priority_whens 0)

  response_500 :
      RefusesElse func_case → (now : ℕ) (db : Db) → (polled_response now db).status_code ≡ 500
  unfolding respond unhandled_exception_handler
  response_500 refuses now db =
      ap (λ (r : Reply Response). (finished site (r, db)).0.status_code)
        (endpoint_raises refuses now db)

module _ (as_int : Json → Option ℤ) where
  -- what the request of `poll` comes to: `raise_for_status`, then the tasks of the body
  abbrev pub received : Response → Polled
  received r = if ltb r.status_code 400 then read (poll as_int (obj r.content)) else unreachable
    where
      read : Option (List PendingTask) → Polled
      read none = raised_late
      read (some tasks) = pending (map (λ (t : PendingTask). t.task_id) tasks)

  failed : (r : Response) → r.status_code ≡ 500 → received r ≡ unreachable
  failed r h = rw h refl

  module _ (func_case : FuncCase) (site : Surroundings) (agent_id : String)
      (max_concurrent : ℕ) where
    -- The loop of `run` against the server, with the time and the database of each poll: the sidecar
    -- after it, and all that was dispatched.
    unfoldable pub run_polls : List (ℕ × Db) → Sidecar → Sidecar × List String
    unfolding poll_once
    run_polls [] a = (a, [])
    run_polls ((now, db) ∷ rest) a =
        let response = polled_response func_case site agent_id now db in
        let (a', started) = poll_once max_concurrent (received response) a in
        let (last, more) = run_polls rest a' in (last, started ++ more)

    -- the backoff after some failed polls
    abbrev pub backed_off : ℕ → ℕ → ℕ
    backed_off zero backoff = backoff
    backed_off (suc n) backoff = backed_off n (min (backoff * 2) max_backoff)

    -- Where `func.case` refuses `else_`, every poll of a sidecar, whatever tasks wait for its agent in
    -- the database, is answered with 500; and however often it polls, it dispatches nothing, has the
    -- tasks in flight and the signals that it had, and doubles its backoff up to the maximum.
    pub run_polls-starts_nothing :
        RefusesElse func_case
        → (polls : List (ℕ × Db)) (a : Sidecar)
        → All
            (λ (p : ℕ × Db). (polled_response func_case site agent_id p.0 p.1).status_code ≡ 500)
            polls
          × (run_polls polls a
              ≡ (record a { current_backoff = backed_off (length polls) a.current_backoff }, []))
    unfolding run_polls poll_once dispatch poll_backoff
    run_polls-starts_nothing refuses [] a = (tt, refl)
    run_polls-starts_nothing refuses ((now, db) ∷ rest) a =
        let next : Sidecar = record a {
          current_backoff = min (a.current_backoff * 2) max_backoff;
        } in
        let code = response_500 func_case site agent_id refuses now db in
        let (codes, later) = run_polls-starts_nothing refuses rest next in
        (
          (code, codes),
          rw (failed (polled_response func_case site agent_id now db) code, later) refl,
        )
