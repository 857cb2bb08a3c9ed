-- ===== src/Signals/Unheard.antt =====
-- The server's signals as the sidecar receives them.
use fleet_api.Base.{
  ℕ, ◌≡◌, refl, ap, ◌∙◌, Bool, true, not, ◌&&◌, ◌||◌, List, [], ◌∷◌, ◌++◌, map, String, Option,
  none, some, ◌==◌, eq_iff, Bool-cases, inl, inr, arith, select, any, sort, any-sort, any-select,
  any-append,
}
use fleet_api.Task.Row.{TaskEvent}
use fleet_api.Store.{Db}
use fleet_api.Polling.{
  SignalItem, get_pending_signals, event_signal, is_earlier, is_signal, is_executing,
  terminated_signals,
}
use fleet_api.Signals.{is_valid_signal_type, validate_all, received}

abbrev pub is_invalid : SignalItem → Bool
is_invalid s = not (is_valid_signal_type s.signal_type)

any_mono :
    {A : Type 0} (p q : A → Bool) (xs : List A)
    → ((x : A) → p x ≡ true → q x ≡ true)
    → any p xs ≡ true
    → any q xs ≡ true
unfolding any
any_mono p q [] f h = cc
any_mono p q (x ∷ xs) f h = elim (Bool-cases (p x)) [
  | inl e ↦ rw (f x e) refl
  | inr e ↦ ground (arith, any_mono p q xs f)
]

any-map :
    {A B : Type 0} (p : B → Bool) (f : A → B) (xs : List A)
    → any p (map f xs) ≡ any (λ x. p (f x)) xs
unfolding any
any-map p f [] = refl
any-map p f (x ∷ xs) = ap (λ b. p (f x) || b) (any-map p f xs)

-- one invalid item loses them all
validate_all-invalid :
    (items : List SignalItem) → any is_invalid items ≡ true → validate_all items ≡ none
unfolding validate_all any
validate_all-invalid [] h = cc
validate_all-invalid (s ∷ items) h = ground (arith, validate_all-invalid items)

-- a signal of injected context
abbrev pub is_context : String → Db → TaskEvent → Bool
is_context agent_id db e = is_signal agent_id db e && e.event_type == "context_injected"

both : (a b : Bool) → (a && b) ≡ true → (a ≡ true) × (b ≡ true)
both a b h = (ground arith, ground arith)

context-invalid :
    (agent_id : String) (db : Db) (e : TaskEvent)
    → is_context agent_id db e ≡ true
    → (is_signal agent_id db e && is_invalid (event_signal e)) ≡ true
unfolding is_valid_signal_type
context-invalid agent_id db e h =
    let (signal, context) = both (is_signal agent_id db e) (e.event_type == "context_injected") h in
    let same : e.event_type ≡ "context_injected" =
      (eq_iff e.event_type "context_injected").0 context in
    let invalid : is_invalid (event_signal e) ≡ true =
      ap (λ s. not (is_valid_signal_type s)) same in
    rw (signal, invalid) refl

pub get_pending_signals-lost :
    (now : ℕ) (agent_id : String) (db : Db)
    → any (is_context agent_id db) db.events ≡ true
    → received (get_pending_signals now agent_id db) ≡ []
unfolding received get_pending_signals
get_pending_signals-lost now agent_id db h =
    elim (Bool-cases (any (is_executing agent_id) db.tasks)) [
      | inr e ↦ rw e refl
      | inl e ↦
          let rows = sort is_earlier (select (is_signal agent_id db) db.events) in
          let found : any (λ x. is_invalid (event_signal x)) rows ≡ true =
            any-sort (λ x. is_invalid (event_signal x)) is_earlier
              (select (is_signal agent_id db) db.events)
            ∙ any-select (λ x. is_invalid (event_signal x)) (is_signal agent_id db) db.events
            ∙ any_mono (is_context agent_id db)
                (λ x. is_signal agent_id db x && is_invalid (event_signal x)) db.events
                (context-invalid agent_id db) h in
          let all_items : any is_invalid
                (map event_signal rows ++ terminated_signals now agent_id db.tasks)
              ≡ true =
            any-append is_invalid (map event_signal rows) (terminated_signals now agent_id db.tasks)
            ∙ ap (λ b. b || any is_invalid (terminated_signals now agent_id db.tasks))
                (any-map is_invalid event_signal rows ∙ found) in
          rw e (
            ap (λ (o : Option (List SignalItem)). elim o [ none ↦ [] | some valid ↦ valid ])
              (validate_all-invalid _ all_items))
    ]
