-- ===== src/FleetAgent/Repeated.antt =====
-- Signals that are polled again, and signals for a task that is not registered.
use fleet_api.Base.{
  String, Bool, true, false, ◌≡◌, refl, ap, ◌∙◌, List, [], ◌∷◌, ◌==◌, eq_iff, eq_refl,
  if◌then◌else◌, arith, Bool-cases, inl, inr, All,
}
use fleet_api.FleetAgent.State.{
  SignalState, is_signal_processed, mark_signal_processed, has_task, set_cancel, set_redirect,
  register_task, is_cancelled, is_paused, set_item,
}
use fleet_api.FleetAgent.Control.{
  Signal, signal_key, handle_signal, process_signal, process_signals, handle_pause, handle_resume,
  handle_cancel, handle_redirect, handle_context_injection,
}

processed-handle :
    (sig : Signal) (s : SignalState) (key : String)
    → (handle_signal sig s).0.processed_signals key ≡ s.processed_signals key
unfolding handle_signal handle_pause handle_resume handle_cancel handle_redirect
    handle_context_injection has_task set_cancel set_redirect
processed-handle sig s key = ground arith

processed-process :
    (sig : Signal) (s : SignalState) (key : String)
    → is_signal_processed key (process_signal sig s).0
      ≡ (if key == signal_key sig then true else is_signal_processed key s)
unfolding process_signal is_signal_processed mark_signal_processed
processed-process sig s key = elim (Bool-cases (s.processed_signals (signal_key sig))) [
  | inl e ↦ ground (arith, eq_iff key (signal_key sig))
  | inr e ↦
      rw e
        (ap (λ (b : Bool). if key == signal_key sig then true else b) (processed-handle sig s key))
]

-- a signal that was processed stays so
processed-stays :
    (sigs : List Signal) (s : SignalState) (key : String)
    → is_signal_processed key s ≡ true
    → is_signal_processed key (process_signals sigs s).0 ≡ true
unfolding process_signals
processed-stays [] s key h = h
processed-stays (sig ∷ sigs) s key h =
    processed-stays sigs (process_signal sig s).0 key (ground (arith, processed-process sig s key))

each_processed :
    (sigs : List Signal) (s : SignalState)
    → All (λ sig. is_signal_processed (signal_key sig) (process_signals sigs s).0 ≡ true) sigs
unfolding process_signals
each_processed [] s = tt
each_processed (sig ∷ sigs) s = (
  processed-stays sigs (process_signal sig s).0 (signal_key sig)
      (processed-process sig s (signal_key sig) ∙ rw (eq_refl (signal_key sig)) refl),
  each_processed sigs (process_signal sig s).0,
)

skip :
    (sigs : List Signal) (s : SignalState)
    → All (λ sig. is_signal_processed (signal_key sig) s ≡ true) sigs
    → process_signals sigs s ≡ (s, [])
unfolding process_signals process_signal
skip [] s h = refl
skip (sig ∷ sigs) s (first, rest) = rw first (rw (skip sigs s rest) refl)

-- A poll that brings the signals of an earlier poll again changes nothing and acknowledges nothing.
pub process_signals-again :
    (sigs : List Signal) (s : SignalState)
    → process_signals sigs (process_signals sigs s).0 ≡ ((process_signals sigs s).0, [])
process_signals-again sigs s = skip sigs (process_signals sigs s).0 (each_processed sigs s)

skip-one :
    (sig : Signal) (s : SignalState)
    → is_signal_processed (signal_key sig) s ≡ true
    → process_signal sig s ≡ (s, [])
unfolding process_signal
skip-one sig s h = rw h refl

-- A signal that comes before its task is registered is lost: nobody is told, and when the task is
-- registered and the signal is polled again, it is skipped and the task is neither paused nor
-- cancelled.
pub process_signal-early :
    (sig : Signal) (s : SignalState)
    → has_task sig.task_id s ≡ false
    → ((process_signal sig s).1 ≡ [])
      × (process_signal sig (register_task sig.task_id (process_signal sig s).0)
          ≡ (register_task sig.task_id (process_signal sig s).0, []))
      × (is_cancelled sig.task_id (register_task sig.task_id (process_signal sig s).0) ≡ false)
      × (is_paused sig.task_id (register_task sig.task_id (process_signal sig s).0) ≡ false)
unfolding register_task process_signal handle_signal is_cancelled is_paused set_item
process_signal-early sig s h = (
  ground arith,
  skip-one sig (register_task sig.task_id (process_signal sig s).0) (
      unfold is_signal_processed in
      (processed-process sig s (signal_key sig) ∙ rw (eq_refl (signal_key sig)) refl)),
  rw (eq_refl sig.task_id) refl,
  rw (is_paused, eq_refl sig.task_id) refl,
)
