-- ===== src/EventStream/Order.antt =====
-- The log of a task as it grows, and what one round of the stream sends of it.
use mathlib.Core.List.{append_assoc, append-nil}
use fleet_api.Base.{
  ℕ, ◌≡◌, refl, sym, ap, ◌∙◌, subst, ◌⊎◌, inl, inr, String, true, some, List, [], ◌∷◌, ◌++◌,
  Bool-cases, arith, select, ltb,
}
use fleet_api.Task.Row.{TaskEvent}
use fleet_api.Store.{Db}
use fleet_api.Paging.{is_after}
use fleet_api.Paging.Keys.{IsOrder}
use fleet_api.Paging.Walk.{IsAbove, IsAscending, select-after}
use fleet_api.EventStream.{
  sequence_of, task_log, Message, sent, heartbeat, Check, goes_on, stops, breaks, check_event,
  send_events,
}

-- the events that were sent, without the heartbeats
abbrev pub events_of : List Message → List TaskEvent
events_of [] = []
events_of (sent e ∷ ms) = e ∷ events_of ms
events_of (heartbeat _ ∷ ms) = events_of ms

-- Later states of the database only add events of the task, with higher numbers: `seen` is the log
-- before the first of them, and `all` the log in the last one.
pub data Grows (task_id : String) : List TaskEvent → List Db → List TaskEvent → Type 0 where
  ends : {seen : List TaskEvent} → Grows task_id seen [] seen
  grows :
      {seen all : List TaskEvent} {db : Db} {dbs : List Db} (new : List TaskEvent)
      → task_log task_id db ≡ seen ++ new
      → Grows task_id (seen ++ new) dbs all
      → Grows task_id seen (db ∷ dbs) all

abbrev pub IsOrdered : List TaskEvent → Type 0
IsOrdered es = IsAscending sequence_of ltb es

abbrev pub after : ℕ → List TaskEvent → List TaskEvent
after n es = select (is_after sequence_of ltb (some n)) es

ltb-IsOrder : IsOrder ltb
ltb-IsOrder = record {
  irrefl = λ a. ground arith;
  trans = λ a b c h k. ground arith;
  connex = λ a b h k. ground arith;
}

pub after-append : (n : ℕ) (xs ys : List TaskEvent) → after n (xs ++ ys) ≡ after n xs ++ after n ys
unfolding select
after-append n [] ys = refl
after-append n (x ∷ xs) ys = ground (arith, after-append n xs ys)

-- the later bound decides
after-after : (m n : ℕ) (xs : List TaskEvent) → ltb m n ≡ true → after n (after m xs) ≡ after n xs
unfolding select
after-after m n [] h = refl
after-after m n (x ∷ xs) h = ground (arith, after-after m n xs h)

after-IsAbove :
    (k n : ℕ) (xs : List TaskEvent)
    → IsAbove sequence_of ltb k xs
    → IsAbove sequence_of ltb k (after n xs)
unfolding select
after-IsAbove k n [] h = tt
after-IsAbove k n (x ∷ xs) h = elim (Bool-cases (ltb n x.sequence)) [
  | inl e ↦ rw e (h.0, after-IsAbove k n xs h.1)
  | inr e ↦ rw e (after-IsAbove k n xs h.1)
]

after-IsOrdered : (n : ℕ) (xs : List TaskEvent) → IsOrdered xs → IsOrdered (after n xs)
unfolding select
after-IsOrdered n [] h = tt
after-IsOrdered n (x ∷ xs) h = elim (Bool-cases (ltb n x.sequence)) [
  | inl e ↦ rw e (after-IsAbove x.sequence n xs h.0, after-IsOrdered n xs h.1)
  | inr e ↦ rw e (after-IsOrdered n xs h.1)
]

-- every element that is selected lies above the bound
bounded_below : (n : ℕ) (xs : List TaskEvent) → IsAbove sequence_of ltb n (after n xs)
unfolding select
bounded_below n [] = tt
bounded_below n (x ∷ xs) = elim (Bool-cases (ltb n x.sequence)) [
  | inl e ↦ rw e (e, bounded_below n xs)
  | inr e ↦ rw e (bounded_below n xs)
]

-- the number of the last event sent
abbrev pub last_of : ℕ → List TaskEvent → ℕ
last_of n [] = n
last_of n (e ∷ es) = last_of e.sequence es

-- After the first events above `n` are sent, the others are those above the last number.
pub catch_up :
    (n : ℕ) (xs now later : List TaskEvent)
    → IsOrdered xs
    → after n xs ≡ now ++ later
    → after (last_of n now) xs ≡ later
catch_up n xs [] later h e = e
catch_up n xs (x ∷ now) later h e =
    let above = subst (IsAbove sequence_of ltb n) e (bounded_below n xs) in
    let ordered = subst IsOrdered e (after-IsOrdered n xs h) in
    catch_up x.sequence xs now later h (
      sym (after-after n x.sequence xs above.0)
      ∙ (ap (after x.sequence) e
          ∙ select-after sequence_of ltb ltb-IsOrder [] x (now ++ later) ordered))

IsAbove-first :
    (k : ℕ) (xs ys : List TaskEvent)
    → IsAbove sequence_of ltb k (xs ++ ys)
    → IsAbove sequence_of ltb k xs
IsAbove-first k [] ys h = tt
IsAbove-first k (x ∷ xs) ys h = (h.0, IsAbove-first k xs ys h.1)

pub IsOrdered-first : (xs ys : List TaskEvent) → IsOrdered (xs ++ ys) → IsOrdered xs
IsOrdered-first [] ys h = tt
IsOrdered-first (x ∷ xs) ys h = (IsAbove-first x.sequence xs ys h.0, IsOrdered-first xs ys h.1)

pub added :
    {task_id : String} {seen all : List TaskEvent} {dbs : List Db}
    → Grows task_id seen dbs all
    → (more : List TaskEvent) × (all ≡ seen ++ more)
added {seen = seen} ends = ([], sym (append-nil seen))
added {seen = seen} (grows new e g) =
    let (more, eq) = added g in (new ++ more, eq ∙ append_assoc seen new more)

pub events_of-append : (ms ns : List Message) → events_of (ms ++ ns) ≡ events_of ms ++ events_of ns
events_of-append [] ns = refl
events_of-append (sent e ∷ ms) ns = ap (λ l. e ∷ l) (events_of-append ms ns)
events_of-append (heartbeat n ∷ ms) ns = events_of-append ms ns

pub Check-cases : (c : Check) → (c ≡ goes_on) ⊎ ((c ≡ stops) ⊎ (c ≡ breaks))
Check-cases goes_on = inl refl
Check-cases stops = inr (inl refl)
Check-cases breaks = inr (inr refl)

-- What is sent begins the list, and is all of it where the stream goes on.
pub record IsSent (n : ℕ) (es : List TaskEvent) (messages : List Message) (last : ℕ) (check : Check)
    : Type 0 where
  pub rest : List TaskEvent
  pub begins : events_of messages ++ rest ≡ es
  pub whole : check ≡ goes_on → events_of messages ≡ es
  pub number : check ≡ goes_on → last ≡ last_of n es

pub send_events-IsSent :
    (n : ℕ) (es : List TaskEvent)
    → let (messages, last, check) = send_events n es in IsSent n es messages last check
unfolding send_events
send_events-IsSent n [] = record { rest = []; begins = refl; whole = λ h. refl; number = λ h. refl }
send_events-IsSent n (e ∷ es) = elim (Check-cases (check_event e)) [
  | inl c ↦
      let h = send_events-IsSent e.sequence es in
      rw (send_events, c)
        (record {
          rest = h.rest;
          begins = ap (λ l. e ∷ l) h.begins;
          whole = λ k. ap (λ l. e ∷ l) (h.whole k);
          number = h.number;
        })
  | inr (inl c) ↦
      rw (send_events, c)
        (record { rest = es; begins = refl; whole = λ k. absurd cc; number = λ k. absurd cc })
  | inr (inr c) ↦
      rw (send_events, c)
        (record { rest = es; begins = refl; whole = λ k. absurd cc; number = λ k. absurd cc })
]
