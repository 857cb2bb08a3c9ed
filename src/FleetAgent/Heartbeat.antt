-- ===== src/FleetAgent/Heartbeat.antt =====
-- `run_heartbeat` of src/fleet_agent/heartbeat.py, over what its posts come to.
use fleet_api.Base.{ℕ, ◌*◌, min, ◌&&◌, List, [], ◌∷◌, leb, if◌then◌else◌}

-- An answered heartbeat, a ConnectError or HTTPStatusError, and any other exception, which ends the
-- loop.
pub data Beat : Type 0 where
  answered failed raised : Beat

-- seconds
abbrev pub base_backoff : ℕ
base_backoff = 30

abbrev pub max_backoff : ℕ
max_backoff = 60

-- `interval if backoff == _BASE_BACKOFF_SECONDS else backoff`
abbrev pub pause_after : ℕ → ℕ → ℕ
pause_after interval backoff =
    if leb backoff base_backoff && leb base_backoff backoff then interval else backoff

-- the sleeps of the loop from a backoff on
unfoldable pub run_heartbeat : ℕ → ℕ → List Beat → List ℕ
run_heartbeat interval backoff [] = []
run_heartbeat interval backoff (answered ∷ beats) =
    pause_after interval base_backoff ∷ run_heartbeat interval base_backoff beats
run_heartbeat interval backoff (failed ∷ beats) =
    let longer = min (backoff * 2) max_backoff in
    pause_after interval longer ∷ run_heartbeat interval longer beats
run_heartbeat interval backoff (raised ∷ beats) = []
