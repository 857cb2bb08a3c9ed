-- ===== src/Signals.antt =====
-- src/fleet_agent/signals.py and signal_state.py: how the sidecar receives control signals.
pub mod Unheard
use fleet_api.Base.{
  ℕ, String, Bool, true, false, ◌||◌, Option, none, some, List, [], ◌∷◌, ◌==◌, if◌then◌else◌,
}
use fleet_api.Json.{Dict}
use fleet_api.Polling.{SignalItem}

-- the literals of SignalType in models.py
unfoldable pub is_valid_signal_type : String → Bool
is_valid_signal_type t =
    t == "pause_requested"
    || t == "resume_requested"
    || t == "cancel_requested"
    || t == "redirect_requested"
    || t == "context_injection"

-- `[Signal.model_validate(s) for s in ...]`; `none` is the ValidationError
unfoldable pub validate_all : List SignalItem → Option (List SignalItem)
unfolding is_valid_signal_type
validate_all [] = some []
validate_all (s ∷ items) =
    let rest = validate_all items in
    if is_valid_signal_type s.signal_type
    then elim rest [ none ↦ none | some valid ↦ some (s ∷ valid) ]
    else none

-- `except Exception: sigs = []` in the loop of `run`
unfoldable pub received : List SignalItem → List SignalItem
unfolding validate_all
received items = elim (validate_all items) [ none ↦ [] | some valid ↦ valid ]
