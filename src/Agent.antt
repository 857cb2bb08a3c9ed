-- ===== src/Agent.antt =====
-- src/fleet_api/agents/models.py: the rows of the table `agents`.
use fleet_api.Base.{ℕ, String, Option, List}

pub data AgentStatus : Type 0 where
  registered active unreachable suspended : AgentStatus

-- `registered_at` and `last_heartbeat` are times in microseconds.
pub record Agent : Type 0 where
  pub id : String
  pub display_name : Option String
  pub public_key : String
  pub capabilities : Option (List String)
  pub status : AgentStatus
  pub last_heartbeat : Option ℕ
  pub registered_at : ℕ
  pub endpoint : Option String
