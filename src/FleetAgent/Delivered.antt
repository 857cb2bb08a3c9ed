-- ===== src/FleetAgent/Delivered.antt =====
-- What reaches the executor through the state that the signal poller and it share.
use fleet_api.Base.{
  String, true, false, ◌&&◌, ◌≡◌, refl, sym, ap, ◌∙◌, some, List, [], ◌∷◌, ◌++◌, ◌==◌, or_else,
  eq_iff, eq_refl, subst, if◌then◌else◌, arith, Bool-cases, inl, inr,
}
use mathlib.Core.List.{append_assoc, append-nil}
use fleet_api.Json.{Dict, empty}
use fleet_api.FleetAgent.State.{
  set_item, SignalState, pop_context, is_signal_processed, mark_signal_processed, has_task,
  set_cancel, set_redirect,
}
use fleet_api.FleetAgent.Control.{
  Signal, signal_key, handle_signal, process_signal, handle_pause, handle_resume, handle_cancel,
  handle_redirect, handle_context_injection,
}

queue-pause :
    (t k : String) (s : SignalState) → (handle_pause k s).0.context_queue t ≡ s.context_queue t
unfolding handle_pause
queue-pause t k s = ground arith

queue-resume :
    (t k : String) (s : SignalState) → (handle_resume k s).0.context_queue t ≡ s.context_queue t
unfolding handle_resume
queue-resume t k s = ground arith

queue-cancel :
    (t k : String) (s : SignalState) → (handle_cancel k s).0.context_queue t ≡ s.context_queue t
unfolding handle_cancel set_cancel
queue-cancel t k s = ground arith

queue-redirect :
    (t k : String) (p : Dict) (s : SignalState)
    → (handle_redirect k p s).0.context_queue t ≡ s.context_queue t
unfolding handle_redirect set_cancel set_redirect
queue-redirect t k p s = ground arith

queue-other :
    (sig : Signal) (s : SignalState) (t : String)
    → (sig.signal_type == "context_injection") ≡ false
    → (handle_signal sig s).0.context_queue t ≡ s.context_queue t
unfolding handle_signal
queue-other sig s t h = ground (
  arith,
  queue-pause t sig.task_id s,
  queue-resume t sig.task_id s,
  queue-cancel t sig.task_id s,
  queue-redirect t sig.task_id (or_else sig.payload empty) s,
)

handle-injection :
    (sig : Signal) (s : SignalState)
    → sig.signal_type ≡ "context_injection"
    → has_task sig.task_id s ≡ true
    → handle_signal sig s ≡ (handle_context_injection sig.task_id (or_else sig.payload empty) s, [])
unfolding handle_signal
handle-injection sig s e known = rw (known, e) refl

-- the contexts that a signal adds for the task
abbrev pub payload_for : String → Signal → List Dict
payload_for t sig =
    if t == sig.task_id && sig.signal_type == "context_injection"
    then or_else sig.payload empty ∷ []
    else []

-- the task is registered, and its queue is `q`
abbrev HasQueue : String → List Dict → SignalState → Type 0
HasQueue t q s = (has_task t s ≡ true) × (s.context_queue t ≡ some q)

has_task-handle :
    (sig : Signal) (s : SignalState) (t : String)
    → has_task t s ≡ true
    → has_task t (handle_signal sig s).0 ≡ true
unfolding handle_signal handle_pause handle_resume handle_cancel handle_redirect
    handle_context_injection has_task set_cancel set_redirect set_item
has_task-handle sig s t h = ground (arith, eq_iff sig.task_id t)

queue-injection :
    (t : String) (p : Dict) (q : List Dict) (s : SignalState)
    → s.context_queue t ≡ some q
    → (handle_context_injection t p s).context_queue t ≡ some (q ++ (p ∷ []))
unfolding handle_context_injection set_item
queue-injection t p q s h = rw (handle_context_injection, h, eq_refl t) refl

queue-injection-other :
    (t k : String) (p : Dict) (s : SignalState)
    → (t == k) ≡ false
    → (handle_context_injection k p s).context_queue t ≡ s.context_queue t
unfolding handle_context_injection set_item
queue-injection-other t k p s h = ground arith

queue-elsewhere :
    (sig : Signal) (s : SignalState) (t : String)
    → (t == sig.task_id) ≡ false
    → (handle_signal sig s).0.context_queue t ≡ s.context_queue t
unfolding handle_signal
queue-elsewhere sig s t h = ground (
  arith,
  queue-pause t sig.task_id s,
  queue-resume t sig.task_id s,
  queue-cancel t sig.task_id s,
  queue-redirect t sig.task_id (or_else sig.payload empty) s,
  queue-injection-other t sig.task_id (or_else sig.payload empty) s h,
)

queue-handle :
    (sig : Signal) (s : SignalState) (t : String) (q : List Dict)
    → HasQueue t q s
    → (handle_signal sig s).0.context_queue t ≡ some (q ++ payload_for t sig)
queue-handle sig s t q (known, h) = elim (Bool-cases (t == sig.task_id)) [
  | inr own ↦ queue-elsewhere sig s t own ∙ (h ∙ ap some (sym (rw own (append-nil q))))
  | inl own ↦ elim (Bool-cases (sig.signal_type == "context_injection")) [
    | inr e ↦ queue-other sig s t e ∙ (h ∙ ap some (sym (rw (own, e) (append-nil q))))
    | inl e ↦
        let same = (eq_iff t sig.task_id).0 own in
        let step =
          handle-injection sig s ((eq_iff _ _).0 e) (subst (λ k. has_task k s ≡ true) same known) in
        let row =
          queue-injection sig.task_id (or_else sig.payload empty) q s
            (subst (λ k. s.context_queue k ≡ some q) same h) in
        ap (λ (x : SignalState × List _). x.0.context_queue t) step
        ∙ (ap
              (λ k.
                (handle_context_injection sig.task_id (or_else sig.payload empty) s).context_queue
                  k)
              same
            ∙ (row ∙ ap some (sym (rw (own, e) refl))))
  ]
]

-- What comes to the sidecar's state while a task runs: a signal of a poll, or the executor's look for
-- contexts of a task.
pub data Move : Type 0 where
  signal : Signal → Move
  look : String → Move

-- the contexts that the executor of `t` gets, and the state that is left
unfoldable pub deliver : String → List Move → SignalState → List Dict × SignalState
unfolding process_signal pop_context
deliver t [] s = ([], s)
deliver t (signal sig ∷ moves) s = deliver t moves (process_signal sig s).0
deliver t (look k ∷ moves) s =
    let (contexts, after) = pop_context k s in
    let (rest, last) = deliver t moves after in ((if t == k then contexts ++ rest else rest), last)

-- the contexts in the signals for `t` that were not processed before
unfoldable pub sent : String → List Move → SignalState → List Dict
unfolding process_signal pop_context is_signal_processed signal_key
sent t [] s = []
sent t (signal sig ∷ moves) s =
    (if is_signal_processed (signal_key sig) s then [] else payload_for t sig)
    ++ sent t moves (process_signal sig s).0
sent t (look k ∷ moves) s = sent t moves (pop_context k s).1

process-HasQueue :
    (sig : Signal) (s : SignalState) (t : String) (q : List Dict)
    → HasQueue t q s
    → HasQueue t
        (q ++ (if is_signal_processed (signal_key sig) s then [] else payload_for t sig))
        (process_signal sig s).0
unfolding process_signal mark_signal_processed has_task
process-HasQueue sig s t q (known, h) = elim (Bool-cases (is_signal_processed (signal_key sig) s)) [
  | inl e ↦ rw e (known, h ∙ ap some (sym (append-nil q)))
  | inr e ↦ rw e (has_task-handle sig s t known, queue-handle sig s t q (known, h))
]

look-own :
    (s : SignalState) (t : String) (q : List Dict)
    → HasQueue t q s
    → ((pop_context t s).0 ≡ q) × HasQueue t [] (pop_context t s).1
unfolding pop_context set_item has_task
look-own s t [] (known, h) = rw (pop_context, h) (refl, (known, h))
look-own s t (x ∷ q) (known, h) = rw (pop_context, h) (refl, (known, rw (eq_refl t) refl))

look-other :
    (s : SignalState) (k t : String) (q : List Dict)
    → (t == k) ≡ false
    → HasQueue t q s
    → HasQueue t q (pop_context k s).1
unfolding pop_context set_item has_task
look-other s k t q differs (known, h) = (ground arith, ground arith)

-- For a task that stays registered, whatever signals come and whatever executors look for contexts:
-- what its executor has got, followed by what still waits, is what waited before followed by the
-- contexts sent, each once and in the order in which they came.
pub deliver-sent :
    (t : String) (moves : List Move) (s : SignalState) (q : List Dict)
    → has_task t s ≡ true
    → s.context_queue t ≡ some q
    → (left : List Dict) × ((deliver t moves s).1.context_queue t ≡ some left)
      × ((deliver t moves s).0 ++ left ≡ q ++ sent t moves s)
unfolding deliver sent
deliver-sent t [] s q known h = (q, h, sym (append-nil q))
deliver-sent t (signal sig ∷ moves) s q known h =
    let (known', h') = process-HasQueue sig s t q (known, h) in
    let (left, waits, eq) = deliver-sent t moves (process_signal sig s).0 _ known' h' in
    (left, waits, eq ∙ append_assoc q _ _)
deliver-sent t (look k ∷ moves) s q known h = elim (Bool-cases (t == k)) [
  | inl own ↦
      let (got, (known', h')) =
        subst (λ j. ((pop_context j s).0 ≡ q) × HasQueue t [] (pop_context j s).1)
          ((eq_iff t k).0 own) (look-own s t q (known, h)) in
      let (left, waits, eq) = deliver-sent t moves (pop_context k s).1 [] known' h' in
      (
        left,
        waits,
        rw own (
            append_assoc (pop_context k s).0 _ left
            ∙ (ap (λ l. l ++ ((deliver t moves (pop_context k s).1).0 ++ left)) got
                ∙ ap (λ l. q ++ l) eq)),
      )
  | inr other ↦
      let (known', h') = look-other s k t q other (known, h) in
      let (left, waits, eq) = deliver-sent t moves (pop_context k s).1 q known' h' in
      (left, waits, rw other eq)
]
