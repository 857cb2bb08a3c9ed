-- ===== src/FleetAgent/Numbered.antt =====
-- The numbers of the events of an execution.
use fleet_api.Base.{
  ℕ, ◌+◌, ◌≡◌, refl, sym, String, Bool, true, false, ◌&&◌, Option, none, some, List, [], ◌∷◌, ◌++◌,
  is_some, if◌then◌else◌, arith, Bool-cases, Option-cases, inl, inr, subst,
}
use fleet_api.Json.{Json, Dict}
use fleet_api.FleetAgent.State.{get_redirect, is_cancelled, pop_context}
use fleet_api.FleetAgent.Executor.{
  TaskEvent, Line, end_of_file, blank, not_json, too_long, timed_out, json, Turn, Ending, closed,
  timeout_error, cancelled_error, redirected_error, raised, unfinished, line_event, context_event,
  context_events, after_event, after_line, read_events, Process, last_sequence, closing_events,
  execute,
}

-- the numbers go up by one from the number after `n`
abbrev pub IsNumbered : ℕ → List TaskEvent → Type 0
IsNumbered n [] = Unit
IsNumbered n (e ∷ es) = (e.sequence ≡ n + 1) × IsNumbered (n + 1) es

append-IsNumbered :
    (n : ℕ) (es later : List TaskEvent)
    → IsNumbered n es
    → IsNumbered (last_sequence n es) later
    → IsNumbered n (es ++ later)
append-IsNumbered n [] later h k = k
append-IsNumbered n (e ∷ es) later (number, h) k = (
  number,
  append-IsNumbered (n + 1) es later h
      (subst (λ m. IsNumbered (last_sequence m es) later) number k),
)

sequence-line_event : (n : ℕ) (j : Json) (e : TaskEvent) → line_event n j ≡ some e → e.sequence ≡ n
unfolding line_event
sequence-line_event n j e h = ground arith

contexts-IsNumbered : (n : ℕ) (contexts : List Dict) → IsNumbered n (context_events n contexts).0
unfolding context_events context_event
contexts-IsNumbered n [] = tt
contexts-IsNumbered n (c ∷ contexts) = (refl, contexts-IsNumbered (n + 1) contexts)

last-contexts :
    (n : ℕ) (contexts : List Dict)
    → last_sequence n (context_events n contexts).0 ≡ (context_events n contexts).1
unfolding context_events context_event
last-contexts n [] = refl
last-contexts n (c ∷ contexts) = last-contexts (n + 1) contexts

-- what follows the contexts goes on from their last number
after_contexts :
    (n : ℕ) (contexts : List Dict) (rest : List TaskEvent)
    → IsNumbered (context_events n contexts).1 rest
    → IsNumbered n ((context_events n contexts).0 ++ rest)
after_contexts n contexts rest h =
    append-IsNumbered n (context_events n contexts).0 rest (contexts-IsNumbered n contexts)
      (subst (λ m. IsNumbered m rest) (sym (last-contexts n contexts)) h)

after_event-IsNumbered :
    (n : ℕ) (contexts : List Dict) (found : Option TaskEvent) (rest : List TaskEvent × Ending)
    → ((e : TaskEvent) → found ≡ some e → e.sequence ≡ (context_events n contexts).1 + 1)
    → IsNumbered ((context_events n contexts).1 + 1) rest.0
    → IsNumbered n (after_event (context_events n contexts).0 found rest).0
after_event-IsNumbered n contexts none rest number h = contexts-IsNumbered n contexts
after_event-IsNumbered n contexts (some e) rest number h =
    after_contexts n contexts (e ∷ rest.0) (number e refl, h)

optional-IsNumbered :
    (absent : Bool) (e : TaskEvent) (n : ℕ)
    → e.sequence ≡ n + 1
    → IsNumbered n (if absent then [] else e ∷ [])
optional-IsNumbered true e n h = tt
optional-IsNumbered false e n h = (h, tt)

after_line-IsNumbered :
    (n : ℕ) (contexts : List Dict) (line : Line) (rest rest' : List TaskEvent × Ending)
    → IsNumbered (context_events n contexts).1 rest.0
    → IsNumbered ((context_events n contexts).1 + 1) rest'.0
    → IsNumbered n
        (after_line (context_events n contexts).0 (context_events n contexts).1 line rest rest').0
unfolding after_line
after_line-IsNumbered n contexts end_of_file rest rest' h h' = contexts-IsNumbered n contexts
after_line-IsNumbered n contexts timed_out rest rest' h h' = contexts-IsNumbered n contexts
after_line-IsNumbered n contexts too_long rest rest' h h' = contexts-IsNumbered n contexts
after_line-IsNumbered n contexts blank rest rest' h h' = after_contexts n contexts rest.0 h
after_line-IsNumbered n contexts not_json rest rest' h h' = after_contexts n contexts rest.0 h
after_line-IsNumbered n contexts (json j) rest rest' h h' =
    after_event-IsNumbered n contexts _ rest' (sequence-line_event _ j) h'

read_events-IsNumbered :
    (watching : Bool) (task_id : String) (turns : List Turn) (n : ℕ)
    → IsNumbered n (read_events watching task_id turns n).0
unfolding read_events
read_events-IsNumbered watching t [] n = tt
read_events-IsNumbered watching t (turn ∷ turns) n =
    elim (Bool-cases (watching && is_some (get_redirect t turn.checked))) [
      | inl e ↦ rw e tt
      | inr e ↦ elim (Bool-cases (watching && is_cancelled t turn.checked)) [
        | inl e' ↦ rw (e, e') tt
        | inr e' ↦ elim (Option-cases turn.resumed) [
          | inl out ↦ rw (e, e', out) tt
          | inr ((s, line), back) ↦
              rw (e, e', back)
                (after_line-IsNumbered n (if watching then (pop_context t s).0 else []) line _ _
                  (read_events-IsNumbered watching t turns _)
                  (read_events-IsNumbered watching t turns _))
        ]
      ]
    ]

module _ (exceeded : ℕ → String) (not_found : String) where
  closing_events-IsNumbered :
      (timeout : Option ℕ) (p : Process) (ending : Ending) (n : ℕ)
      → IsNumbered n (closing_events exceeded not_found timeout p ending n)
  unfolding closing_events
  closing_events-IsNumbered timeout p closed n = optional-IsNumbered _ _ n refl
  closing_events-IsNumbered timeout p timeout_error n = (refl, tt)
  closing_events-IsNumbered timeout p cancelled_error n = (refl, tt)
  closing_events-IsNumbered timeout p redirected_error n = tt
  closing_events-IsNumbered timeout p raised n = tt
  closing_events-IsNumbered timeout p unfinished n = tt

  -- The events of every execution, whatever the process writes and whichever signals come, are
  -- numbered 1, 2, 3 and so on.
  pub execute-IsNumbered :
      (watching : Bool) (task_id : String) (timeout : Option ℕ) (p : Option Process)
      → IsNumbered 0 (execute exceeded not_found watching task_id timeout p).0
  unfolding execute
  execute-IsNumbered watching t timeout none = (refl, tt)
  execute-IsNumbered watching t timeout (some p) =
      append-IsNumbered 0 (read_events watching t p.turns 0).0 _
        (read_events-IsNumbered watching t p.turns 0) (closing_events-IsNumbered timeout p _ _)
