-- ===== src/Examples/Fleet.antt =====
-- The registry, the polled queue, and the sidecar.
use fleet_api.Base.{◌≡◌, refl, none, [], ◌∷◌, any}
use fleet_api.Task.Status.{running}
use fleet_api.Store.{find}
use fleet_api.Polling.{get_pending_signals, is_signal_type}
use fleet_api.Signals.{received}
use fleet_api.Signals.Unheard.{get_pending_signals-lost}
use fleet_api.Task.Status.{is_in_flight}
use fleet_api.Settings.{default_settings}
use fleet_api.Api.{cancel, handle}
use fleet_api.Api.Authority.{may_send, handle-barred}
use fleet_api.Examples.{ext, at_time, row, event, stock}

get_pending_signals-lost_example :
    received (
      get_pending_signals 9 "bob" (
        stock
          (row running none none ∷ [])
          (event "context_injected" 2 ∷ event "pause_requested" 1 ∷ [])))
    ≡ []
unfolding any is_signal_type is_in_flight
get_pending_signals-lost_example =
    get_pending_signals-lost 9 "bob"
      (stock (row running none none ∷ [])
        (event "context_injected" 2 ∷ event "pause_requested" 1 ∷ []))
      refl

handle-barred_example :
    handle ext default_settings
      (at_time 5 "")
      (cancel "wf" "t1" "bob" none)
      (stock (row running none none ∷ []) [])
    ≡ stock (row running none none ∷ []) []
unfolding may_send find
handle-barred_example =
    handle-barred ext default_settings (at_time 5 "") (stock (row running none none ∷ []) [])
      (cancel "wf" "t1" "bob" none) refl
