-- ===== src/FleetAgent/Coherent.antt =====
-- The states that the sidecar reaches.
use fleet_api.Base.{
  ℕ, ◌≤◌, ◌≡◌, refl, ◌∙◌, String, true, false, not, ◌&&◌, List, [], ◌∷◌, ◌==◌, eq_iff, length, leb,
  any, select, arith, Bool-cases, inl, inr, is_some,
}
use fleet_api.FleetAgent.State.{
  SignalState, initial_state, register_task, unregister_task, has_task, set_item, pop_item,
  set_cancel, set_redirect, is_cancelled, get_redirect, mark_signal_processed, pop_context,
}
use fleet_api.FleetAgent.Control.{
  Signal, handle_signal, handle_pause, handle_resume, handle_cancel, handle_redirect,
  handle_context_injection,
}
use fleet_api.FleetAgent.Poller.{
  Sidecar, start, Polled, base_backoff, max_backoff, poll_backoff, is_in_flight, dispatch,
  poll_once, finish, handle, mark, look_for_context,
}

-- What the event loop runs without a break, in any order: a pass of the task poller, the end of a task,
-- the parts of the signal poller's pass between its awaits, and the executors' looks.
pub data Step (max_concurrent : ℕ) : Sidecar → Sidecar → Type 0 where
  polls : (p : Polled) (a : Sidecar) → Step max_concurrent a (poll_once max_concurrent p a).0
  finishes : (t : String) (a : Sidecar) → Step max_concurrent a (finish t a)
  handles : (sig : Signal) (a : Sidecar) → Step max_concurrent a (handle sig a)
  marks : (key : String) (a : Sidecar) → Step max_concurrent a (mark key a)
  looks : (t : String) (a : Sidecar) → Step max_concurrent a (look_for_context t a)

pub data Reachable (max_concurrent : ℕ) : Sidecar → Type 0 where
  initially : Reachable max_concurrent start
  next :
      {a b : Sidecar}
      → Reachable max_concurrent a
      → Step max_concurrent a b
      → Reachable max_concurrent b

abbrev pub IsDistinct : List String → Type 0
IsDistinct [] = Unit
IsDistinct (t ∷ ts) = (is_in_flight t ts ≡ false) × IsDistinct ts

-- At most `max_concurrent` tasks run, none of them twice, the signal poller watches these tasks and
-- no others, a redirected task is cancelled too, and the backoff is between its bounds.
pub record IsCoherent (max_concurrent : ℕ) (a : Sidecar) : Type 0 where
  pub bounded : length a.in_flight ≤ max_concurrent
  pub distinct : IsDistinct a.in_flight
  pub watched : (t : String) → has_task t a.signals ≡ is_in_flight t a.in_flight
  pub redirected :
      (t : String) → is_some (get_redirect t a.signals) ≡ true → is_cancelled t a.signals ≡ true
  pub backoff : (base_backoff ≤ a.current_backoff) × (a.current_backoff ≤ max_backoff)

has_task-handle :
    (sig : Signal) (s : SignalState) (t : String)
    → has_task t (handle_signal sig s).0 ≡ has_task t s
unfolding handle_signal handle_pause handle_resume handle_cancel handle_redirect
    handle_context_injection has_task set_cancel set_redirect set_item
has_task-handle sig s t = ground (arith, eq_iff t sig.task_id)

redirect-handle :
    (sig : Signal) (s : SignalState) (t : String)
    → (is_some (get_redirect t s) ≡ true → is_cancelled t s ≡ true)
    → is_some (get_redirect t (handle_signal sig s).0) ≡ true
    → is_cancelled t (handle_signal sig s).0 ≡ true
unfolding handle_signal handle_pause handle_resume handle_cancel handle_redirect
    handle_context_injection has_task set_cancel set_redirect set_item get_redirect is_cancelled
redirect-handle sig s t h r = ground (arith, eq_iff t sig.task_id)

-- the invariant of the tasks in flight and the state of the signals
record IsMatched (max_concurrent : ℕ) (in_flight : List String) (s : SignalState) : Type 0 where
  bounded : length in_flight ≤ max_concurrent
  distinct : IsDistinct in_flight
  watched : (t : String) → has_task t s ≡ is_in_flight t in_flight
  redirected : (t : String) → is_some (get_redirect t s) ≡ true → is_cancelled t s ≡ true

registered-IsMatched :
    (m : ℕ) (t : String) (in_flight : List String) (s : SignalState)
    → IsMatched m in_flight s
    → is_in_flight t in_flight ≡ false
    → leb m (length in_flight) ≡ false
    → IsMatched m (t ∷ in_flight) (register_task t s)
unfolding register_task has_task any set_item pop_item get_redirect is_cancelled
registered-IsMatched m t in_flight s h new room = record {
  bounded = ground arith;
  distinct = (new, h.distinct);
  watched = λ k. ground (arith, h.watched k, eq_iff t k, eq_iff k t);
  redirected = λ k r. ground (arith, h.redirected k, eq_iff k t);
}

dispatch-IsMatched :
    (m : ℕ) (tasks in_flight : List String) (s : SignalState)
    → IsMatched m in_flight s
    → let (after, s', started) = dispatch m tasks in_flight s in IsMatched m after s'
unfolding dispatch
dispatch-IsMatched m [] in_flight s h = h
dispatch-IsMatched m (t ∷ tasks) in_flight s h = elim (Bool-cases (is_in_flight t in_flight)) [
  | inl e ↦ rw e (dispatch-IsMatched m tasks in_flight s h)
  | inr e ↦ elim (Bool-cases (leb m (length in_flight))) [
    | inl full ↦ rw (e, full) h
    | inr room ↦
        rw (e, room)
          (dispatch-IsMatched m tasks (t ∷ in_flight) (register_task t s)
            (registered-IsMatched m t in_flight s h e room))
  ]
]

is_in_flight-select :
    (t k : String) (ts : List String)
    → is_in_flight k (select (λ j. not (j == t)) ts) ≡ (not (k == t) && is_in_flight k ts)
unfolding any select
is_in_flight-select t k [] = ground arith
is_in_flight-select t k (j ∷ ts) =
    ground (arith, is_in_flight-select t k ts, eq_iff j k, eq_iff j t, eq_iff k t)

length-select : (t : String) (ts : List String) → length (select (λ j. not (j == t)) ts) ≤ length ts
unfolding select
length-select t [] = ground arith
length-select t (j ∷ ts) = ground (arith, length-select t ts)

IsDistinct-select :
    (t : String) (ts : List String) → IsDistinct ts → IsDistinct (select (λ j. not (j == t)) ts)
unfolding select
IsDistinct-select t [] h = tt
IsDistinct-select t (j ∷ ts) (new, h) = elim (Bool-cases (j == t)) [
  | inl e ↦ rw e (IsDistinct-select t ts h)
  | inr e ↦ rw e ((is_in_flight-select t j ts ∙ rw (e, new) refl), IsDistinct-select t ts h)
]

finish-IsCoherent : (m : ℕ) (t : String) (a : Sidecar) → IsCoherent m a → IsCoherent m (finish t a)
unfolding finish unregister_task has_task pop_item get_redirect is_cancelled
finish-IsCoherent m t a h = record {
  bounded = ground (arith, length-select t a.in_flight, h.bounded);
  distinct = IsDistinct-select t a.in_flight h.distinct;
  watched = λ k. ground (arith, h.watched k, is_in_flight-select t k a.in_flight);
  redirected = λ k r. ground (arith, h.redirected k);
  backoff = h.backoff;
}

poll_backoff-bounds :
    (p : Polled) (b : ℕ)
    → base_backoff ≤ b
    → b ≤ max_backoff
    → (base_backoff ≤ poll_backoff p b) × (poll_backoff p b ≤ max_backoff)
unfolding poll_backoff
poll_backoff-bounds p b low high = (ground arith, ground arith)

poll_once-IsCoherent :
    (m : ℕ) (p : Polled) (a : Sidecar) → IsCoherent m a → IsCoherent m (poll_once m p a).0
unfolding poll_once
poll_once-IsCoherent m p a h =
    let matched = dispatch-IsMatched m _ a.in_flight a.signals (record {
      bounded = h.bounded;
      distinct = h.distinct;
      watched = h.watched;
      redirected = h.redirected;
    }) in
    record {
      bounded = matched.bounded;
      distinct = matched.distinct;
      watched = matched.watched;
      redirected = matched.redirected;
      backoff = poll_backoff-bounds p a.current_backoff h.backoff.0 h.backoff.1;
    }

handle-IsCoherent :
    (m : ℕ) (sig : Signal) (a : Sidecar) → IsCoherent m a → IsCoherent m (handle sig a)
unfolding handle
handle-IsCoherent m sig a h = record {
  bounded = h.bounded;
  distinct = h.distinct;
  watched = λ k. has_task-handle sig a.signals k ∙ h.watched k;
  redirected = λ k r. redirect-handle sig a.signals k (h.redirected k) r;
  backoff = h.backoff;
}

mark-IsCoherent : (m : ℕ) (key : String) (a : Sidecar) → IsCoherent m a → IsCoherent m (mark key a)
unfolding mark mark_signal_processed has_task get_redirect is_cancelled
mark-IsCoherent m key a h = record {
  bounded = h.bounded;
  distinct = h.distinct;
  watched = h.watched;
  redirected = h.redirected;
  backoff = h.backoff;
}

look-IsCoherent :
    (m : ℕ) (t : String) (a : Sidecar) → IsCoherent m a → IsCoherent m (look_for_context t a)
unfolding look_for_context pop_context has_task get_redirect is_cancelled
look-IsCoherent m t a h = record {
  bounded = h.bounded;
  distinct = h.distinct;
  watched = λ k. ground (arith, h.watched k);
  redirected = λ k r. ground (arith, h.redirected k);
  backoff = h.backoff;
}

-- Every state that the sidecar reaches is coherent, whatever the server answers, whenever tasks end
-- and however the polls and the signals are interleaved.
pub sidecar-IsCoherent :
    (max_concurrent : ℕ) (a : Sidecar) → Reachable max_concurrent a → IsCoherent max_concurrent a
unfolding start initial_state has_task get_redirect any
sidecar-IsCoherent m a initially = record {
  bounded = ground arith;
  distinct = tt;
  watched = λ k. refl;
  redirected = λ k r. ground arith;
  backoff = (ground arith, ground arith);
}
sidecar-IsCoherent m b (next before (polls p a)) =
    poll_once-IsCoherent m p a (sidecar-IsCoherent m a before)
sidecar-IsCoherent m b (next before (finishes t a)) =
    finish-IsCoherent m t a (sidecar-IsCoherent m a before)
sidecar-IsCoherent m b (next before (handles sig a)) =
    handle-IsCoherent m sig a (sidecar-IsCoherent m a before)
sidecar-IsCoherent m b (next before (marks key a)) =
    mark-IsCoherent m key a (sidecar-IsCoherent m a before)
sidecar-IsCoherent m b (next before (looks t a)) =
    look-IsCoherent m t a (sidecar-IsCoherent m a before)
