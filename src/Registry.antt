-- ===== src/Registry.antt =====
-- The registry of agents: src/fleet_api/agents/service.py and the routes that register an agent and take
-- its heartbeat, and the sweep of agents/heartbeat_monitor.py.
pub mod Liveness
use fleet_api.Base.{
  ℕ, ◌+◌, ◌*◌, String, Bool, true, false, ◌&&◌, ◌||◌, not, Option, none, some, List, [], ◌∷◌, map,
  Result, ok, err, ◌>>=◌, ◌>>◌, require, or_raise, ltb, ◌==◌, if◌then◌else◌,
}
use fleet_api.Base.Int.{second}
use fleet_api.Errors.{ErrorCode, agent_exists, not_authorized, endpoint_not_found}
use fleet_api.Agent.{Agent, AgentStatus, registered, active, unreachable, suspended}
use fleet_api.Store.{Db, find_agent, replace}

-- the body of a registration
pub record Registration : Type 0 where
  pub agent_id : String
  pub public_key : String
  pub display_name : Option String
  pub capabilities : Option (List String)
  pub endpoint : Option String

-- `{"endpoint": endpoint} if endpoint else None`
abbrev given : Option String → Option String
given none = none
given (some s) = if s == "" then none else some s

unfoldable pub new_agent : ℕ → Registration → Agent
new_agent now r = record {
  id = r.agent_id;
  display_name = r.display_name;
  public_key = r.public_key;
  capabilities = r.capabilities;
  status = registered;
  last_heartbeat = none;
  registered_at = now;
  endpoint = given r.endpoint;
}

-- An agent and the database after the call. Registering again with the same key changes nothing.
unfoldable pub register_agent : ℕ → Registration → Db → Result ErrorCode (Agent × Db)
unfolding new_agent
register_agent now r db = elim (find_agent r.agent_id db) [
  | some existing ↦
      if existing.public_key == r.public_key then ok (existing, db) else err agent_exists
  | none ↦ let agent = new_agent now r in ok (agent, record db { agents = agent ∷ db.agents })
]

unfoldable pub is_silent : AgentStatus → Bool
is_silent registered = true
is_silent unreachable = true
is_silent _ = false

-- `AgentService.heartbeat`, on the row
unfoldable pub beat : ℕ → Agent → Agent
unfolding is_silent
beat now agent =
    let seen = record agent { last_heartbeat = some now } in
    if is_silent agent.status then record seen { status = active } else seen

-- the endpoint: an agent sends heartbeats for itself only
unfoldable pub heartbeat : ℕ → String → String → Db → Result ErrorCode (Agent × Db)
unfolding beat replace
heartbeat now caller agent_id db = do
  require (caller == agent_id) not_authorized
  agent ← or_raise (find_agent agent_id db) endpoint_not_found
  let agent' = beat now agent
  ok (agent', record db { agents = replace (λ (a : Agent). a.id) agent' db.agents })

unfoldable pub is_active : AgentStatus → Bool
is_active active = true
is_active _ = false

-- `Agent.last_heartbeat < cutoff`, which a NULL does not satisfy
abbrev pub is_older : ℕ → ℕ → Option ℕ → Bool
is_older now timeout none = false
is_older now timeout (some t) = ltb (t + timeout * second) now

abbrev pub is_stale : ℕ → ℕ → Agent → Bool
is_stale now timeout a = is_active a.status && is_older now timeout a.last_heartbeat

unfoldable pub stale_ids : ℕ → ℕ → List Agent → List String
unfolding is_active
stale_ids now timeout [] = []
stale_ids now timeout (a ∷ agents) =
    let rest = stale_ids now timeout agents in if is_stale now timeout a then a.id ∷ rest else rest

unfoldable pub mem : String → List String → Bool
mem k [] = false
mem k (j ∷ ids) = j == k || mem k ids

-- the UPDATE of one row
unfoldable pub mark : List String → Agent → Agent
unfolding mem is_active
mark ids a = if mem a.id ids && is_active a.status then record a { status = unreachable } else a

abbrev pub mark_all : List String → Db → Db
mark_all [] db = db
mark_all (k ∷ ids) db = record db { agents = map (mark (k ∷ ids)) db.agents }

-- `_sweep`
unfoldable pub sweep : ℕ → ℕ → Db → Db
unfolding stale_ids mark
sweep now timeout db = mark_all (stale_ids now timeout db.agents) db
