-- ===== src/FleetAgent/Stopped.antt =====
-- A task that is cancelled or redirected stops at the executor's next check.
use fleet_api.Base.{
  ℕ, ◌≡◌, refl, ◌⊎◌, inl, inr, String, true, false, Option, List, [], ◌∷◌, eq_iff, eq_refl, or_else,
  if◌then◌else◌, is_some, arith, Bool-cases,
}
use fleet_api.Json.{Dict, empty}
use fleet_api.FleetAgent.State.{
  SignalState, get_redirect, is_cancelled, is_paused, has_task, set_item, set_cancel, set_redirect,
  is_signal_processed, mark_signal_processed,
}
use fleet_api.FleetAgent.Control.{
  Signal, signal_key, handle_signal, process_signal, process_signals, handle_pause, handle_resume,
  handle_cancel, handle_redirect, handle_context_injection,
}
use fleet_api.FleetAgent.Executor.{Turn, Line, cancelled_error, redirected_error, read_events}

-- a task that is cancelled stays cancelled
cancelled-handle :
    (sig : Signal) (s : SignalState) (t : String)
    → is_cancelled t s ≡ true
    → is_cancelled t (handle_signal sig s).0 ≡ true
unfolding handle_signal handle_pause handle_resume handle_cancel handle_redirect
    handle_context_injection has_task set_cancel set_redirect set_item is_cancelled
cancelled-handle sig s t h = ground (arith, eq_iff t sig.task_id)

cancelled-process :
    (sigs : List Signal) (s : SignalState) (t : String)
    → is_cancelled t s ≡ true
    → is_cancelled t (process_signals sigs s).0 ≡ true
unfolding process_signals process_signal is_cancelled mark_signal_processed
cancelled-process [] s t h = h
cancelled-process (sig ∷ sigs) s t h =
    cancelled-process sigs (process_signal sig s).0 t (ground (arith, cancelled-handle sig s t))

-- the two signals that end a task, and what each leaves
abbrev pub IsEnding : Signal → Type 0
IsEnding sig = (sig.signal_type ≡ "cancel_requested") ⊎ (sig.signal_type ≡ "redirect_requested")

cancel-stops :
    (t : String) (s : SignalState)
    → (is_cancelled t (handle_cancel t s).0 ≡ true) × (is_paused t (handle_cancel t s).0 ≡ false)
unfolding handle_cancel set_cancel set_item is_cancelled is_paused
cancel-stops t s = (ground (arith, eq_refl t), ground (arith, eq_refl t))

redirect-stops :
    (t : String) (payload : Dict) (s : SignalState)
    → (is_cancelled t (handle_redirect t payload s).0 ≡ true)
      × (is_paused t (handle_redirect t payload s).0 ≡ false)
unfolding handle_redirect set_redirect set_cancel set_item is_cancelled is_paused
redirect-stops t payload s = (ground (arith, eq_refl t), ground (arith, eq_refl t))

handled :
    (sig : Signal) (s : SignalState)
    → has_task sig.task_id s ≡ true
    → IsEnding sig
    → (is_cancelled sig.task_id (handle_signal sig s).0 ≡ true)
      × (is_paused sig.task_id (handle_signal sig s).0 ≡ false)
unfolding handle_signal
handled sig s known (inl e) = rw (known, e) (cancel-stops sig.task_id s)
handled sig s known (inr e) =
    rw (known, e) (redirect-stops sig.task_id (or_else sig.payload empty) s)

processed :
    (sig : Signal) (s : SignalState)
    → has_task sig.task_id s ≡ true
    → is_signal_processed (signal_key sig) s ≡ false
    → IsEnding sig
    → (is_cancelled sig.task_id (process_signal sig s).0 ≡ true)
      × (is_paused sig.task_id (process_signal sig s).0 ≡ false)
unfolding process_signal is_cancelled is_paused mark_signal_processed
processed sig s known new ends = rw new (handled sig s known ends)

-- When a registered task's cancel or redirect signal is processed for the first time, the task is no
-- longer paused; and whatever signals follow, the executor stops at its next check: it emits nothing
-- more that the handler writes, and the task counts as redirected when there is a redirection and as
-- cancelled otherwise.
pub read_events-stops :
    (sig : Signal) (later : List Signal) (s : SignalState) (resumed : Option (SignalState × Line))
    (turns : List Turn) (n : ℕ)
    → has_task sig.task_id s ≡ true
    → is_signal_processed (signal_key sig) s ≡ false
    → IsEnding sig
    → (is_paused sig.task_id (process_signal sig s).0 ≡ false)
      × (let now = (process_signals later (process_signal sig s).0).0 in
          read_events true sig.task_id (record { checked = now; resumed = resumed } ∷ turns) n ≡ (
            [],
            if is_some (get_redirect sig.task_id now) then redirected_error else cancelled_error,
          ))
unfolding read_events
read_events-stops sig later s resumed turns n known new ends =
    let (cancelled_now, awake) = processed sig s known new ends in
    let stays = cancelled-process later (process_signal sig s).0 sig.task_id cancelled_now in
    (
      awake,
      elim (Bool-cases
          (is_some (get_redirect sig.task_id (process_signals later (process_signal sig s).0).0))) [
            | inl e ↦ rw e refl
            | inr e ↦ rw (e, stays) refl
          ],
    )
