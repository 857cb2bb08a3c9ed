-- ===== src/EventStream/Complete.antt =====
-- The stream sends each event once and in order.
use mathlib.Core.List.{append_assoc, append-nil}
use fleet_api.Base.{
  ℕ, ◌≡◌, refl, sym, ap, ◌∙◌, subst, String, Bool, true, false, List, [], ◌∷◌, ◌++◌, if◌then◌else◌,
  leb,
}
use fleet_api.Task.Row.{TaskEvent}
use fleet_api.Store.{Db}
use fleet_api.EventStream.{
  fetch_events_after, Message, Check, goes_on, stops, breaks, send_events, check_task, poll_check,
  idle_after, go_on, keep_alive, poll_events, event_stream,
}
use fleet_api.EventStream.Order.{
  events_of, Grows, ends, grows, IsOrdered, after, after-append, last_of, catch_up, IsOrdered-first,
  added, events_of-append, IsSent, send_events-IsSent,
}

-- The events sent, with what is left of `es`; nothing is left where the stream waits.
pub record IsPart (es : List TaskEvent) (result : List Message × Check) : Type 0 where
  pub left : List TaskEvent
  pub whole : events_of result.0 ++ left ≡ es
  pub complete : result.1 ≡ goes_on → left ≡ []

poll-IsSent :
    (n : ℕ) (task_id : String) (db : Db) (es : List TaskEvent)
    → let (messages, last, check) = send_events n es in
      IsSent n es messages last (poll_check task_id db es check)
unfolding send_events
poll-IsSent n task_id db [] = record {
  rest = [];
  begins = refl;
  whole = λ h. refl;
  number = λ h. refl;
}
poll-IsSent n task_id db (e ∷ es) = send_events-IsSent n (e ∷ es)

-- A round, and what comes after it where the stream goes on.
round-IsPart :
    (n last : ℕ) (es later : List TaskEvent) (messages : List Message) (check : Check)
    (next : List Message × Check)
    → IsSent n es messages last check
    → (check ≡ goes_on → IsPart later next)
    → IsPart (es ++ later) (go_on check messages next)
round-IsPart n last es later messages stops next h p = record {
  left = h.rest ++ later;
  whole = sym (append_assoc (events_of messages) h.rest later) ∙ ap (λ l. l ++ later) h.begins;
  complete = λ k. absurd cc;
}
round-IsPart n last es later messages breaks next h p = record {
  left = h.rest ++ later;
  whole = sym (append_assoc (events_of messages) h.rest later) ∙ ap (λ l. l ++ later) h.begins;
  complete = λ k. absurd cc;
}
round-IsPart n last es later messages goes_on next h p =
    let q = p refl in
    record {
      left = q.left;
      whole =
          ap (λ l. l ++ q.left) (events_of-append messages next.0)
          ∙ (append_assoc (events_of messages) (events_of next.0) q.left
              ∙ (ap (λ l. l ++ (events_of next.0 ++ q.left)) (h.whole refl)
                  ∙ ap (λ l. es ++ l) q.whole));
      complete = q.complete;
    }

keep_alive-IsPart :
    (idle_long : Bool) (n : ℕ) (es : List TaskEvent) (later : List Message × Check)
    → IsPart es later
    → IsPart es (keep_alive idle_long n later)
keep_alive-IsPart true n es later p = record {
  left = p.left;
  whole = p.whole;
  complete = p.complete;
}
keep_alive-IsPart false n es later p = p

-- what is left after a round, in the last log
remains :
    (n : ℕ) (seen new all more es : List TaskEvent)
    → IsOrdered all
    → all ≡ (seen ++ new) ++ more
    → es ≡ after n (seen ++ new)
    → (after n all ≡ es ++ after n more)
      × (after (last_of n es) all ≡ after n more)
      × (after (last_of n es) (seen ++ new) ≡ [])
remains n seen new all more es ordered eq found =
    let whole =
      ap (after n) eq
      ∙ (after-append n (seen ++ new) more ∙ ap (λ l. l ++ after n more) (sym found)) in
    (
      whole,
      catch_up n all es (after n more) ordered whole,
      catch_up n (seen ++ new) es []
          (IsOrdered-first (seen ++ new) more (subst IsOrdered eq ordered))
          (sym found ∙ sym (append-nil es)),
    )

moved :
    {es es' : List TaskEvent} {result : List Message × Check}
    → es ≡ es'
    → IsPart es result
    → IsPart es' result
moved {result = result} e = subst (λ l. IsPart l result) e

poll_events-IsPart :
    (task_id : String) (interval last idle : ℕ) (seen all : List TaskEvent) (dbs : List Db)
    → Grows task_id seen dbs all
    → IsOrdered all
    → after last seen ≡ []
    → IsPart (after last all) (poll_events task_id interval last idle dbs)
unfolding poll_events fetch_events_after
poll_events-IsPart task_id interval last idle seen all [] ends ordered h = record {
  left = [];
  whole = sym h;
  complete = λ k. refl;
}
poll_events-IsPart task_id interval last idle seen all (db ∷ dbs) (grows new e g) ordered h =
    let (more, eq) = added g in
    let (whole, caught, nothing) =
      remains last seen new all more (fetch_events_after task_id last db) ordered eq
        (ap (after last) e) in
    let (ms, last', check) = send_events last (fetch_events_after task_id last db) in
    let round = poll-IsSent last task_id db (fetch_events_after task_id last db) in
    moved (sym whole) (
      round-IsPart last last' _ (after last more) ms _ _ round (λ on.
        keep_alive-IsPart (leb interval (idle_after idle (fetch_events_after task_id last db)))
          last' (after last more) _
          (moved (ap (λ n. after n all) (round.number on) ∙ caught) (
            poll_events-IsPart task_id interval last'
              (if leb interval (idle_after idle (fetch_events_after task_id last db))
                then 0
                else idle_after idle (fetch_events_after task_id last db))
              (seen ++ new) all dbs g ordered
              (ap (λ n. after n (seen ++ new)) (round.number on) ∙ nothing)))))

-- Provided that the task's log only grows, with higher and higher numbers, the stream sends the events
-- above the client's last number, each once and in their order, from the first one on without a gap;
-- while it waits for the next poll, no event of the last poll's database is unsent.
pub event_stream-IsPart :
    (task_id : String) (last_event_id interval : ℕ) (db : Db) (dbs : List Db) (all : List TaskEvent)
    → Grows task_id [] (db ∷ dbs) all
    → IsOrdered all
    → IsPart (after last_event_id all) (event_stream task_id last_event_id interval db dbs)
unfolding event_stream fetch_events_after
event_stream-IsPart task_id last interval db dbs all (grows new e g) ordered =
    let (more, eq) = added g in
    let (whole, caught, nothing) =
      remains last [] new all more (fetch_events_after task_id last db) ordered eq
        (ap (after last) e) in
    let (ms, last', check) = send_events last (fetch_events_after task_id last db) in
    let round = send_events-IsSent last (fetch_events_after task_id last db) in
    moved (sym whole) (
      round-IsPart last last' _ (after last more) ms check _ round (λ on.
        round-IsPart last' last' [] (after last more) [] (check_task task_id db) _
          (record { rest = []; begins = refl; whole = λ h. refl; number = λ h. refl })
          (λ _. moved (ap (λ n. after n all) (round.number on) ∙ caught) (
            poll_events-IsPart task_id interval last' 0 new all dbs g ordered
              (ap (λ n. after n new) (round.number on) ∙ nothing)))))
