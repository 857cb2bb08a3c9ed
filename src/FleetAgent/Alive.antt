-- ===== src/FleetAgent/Alive.antt =====
-- The sidecar's heartbeats against the server's sweep.
use fleet_api.Base.{ℕ, zero, suc, ◌+◌, ◌*◌, ◌≤◌, ◌≡◌, String, some, List, [], ◌∷◌, ok, arith, min}
use fleet_api.Base.Int.{second}
use fleet_api.Agent.{Agent}
use fleet_api.Store.{Db, find_agent}
use fleet_api.Registry.{heartbeat, sweep}
use fleet_api.Registry.Liveness.{HasKeys, heartbeat-lives}
use fleet_api.FleetAgent.Heartbeat.{Beat, answered, failed, max_backoff, run_heartbeat}

abbrev pub sum : List ℕ → ℕ
sum [] = 0
sum (n ∷ ns) = n + sum ns

-- some attempts that fail
abbrev pub failures : ℕ → List Beat
failures zero = []
failures (suc n) = failed ∷ failures n

sum-run_heartbeat :
    (interval backoff n : ℕ)
    → 30 ≤ backoff
    → sum (run_heartbeat interval backoff (failures n)) ≤ 60 * n
unfolding run_heartbeat
sum-run_heartbeat interval backoff zero h = omega arith
sum-run_heartbeat interval backoff (suc n) h =
    ground (arith, sum-run_heartbeat interval (min (backoff * 2) max_backoff) n)

-- After an answered heartbeat, as many failed attempts as the timeout has room for, one with the default
-- interval of 30 and timeout of 90 seconds, leave the agent as the heartbeat left it: no sweep up to the
-- end of the loop's sleeps, where the next attempt is made, changes it. Requests take no time, the
-- sweeps find the rows as the heartbeat left them, and the agents have different identifiers.
pub run_heartbeat-lives :
    (interval backoff n timeout now later : ℕ) (k : String) (db db' : Db) (a : Agent)
    → HasKeys db.agents
    → heartbeat now k k db ≡ ok (a, db')
    → interval + 60 * n ≤ timeout
    → later ≤ now + sum (run_heartbeat interval backoff (answered ∷ failures n)) * second
    → find_agent k (sweep later timeout db') ≡ some a
unfolding run_heartbeat
run_heartbeat-lives interval backoff n timeout now later k db db' a keys beat room le =
    let bound = sum-run_heartbeat interval 30 n (omega arith) in
    let in_time : later ≤ now + timeout * second = omega (arith, bound) in
    (heartbeat-lives now later timeout k k db db' a keys beat in_time).2
