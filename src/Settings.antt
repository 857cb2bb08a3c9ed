-- ===== src/Settings.antt =====
-- src/fleet_api/config.py, and what a request reads from outside the database.
use fleet_api.Base.{ℕ, String}

-- the settings that the modelled code reads
pub record Settings : Type 0 where
  pub fleet_lineage_max_depth : ℕ
  pub fleet_heartbeat_timeout_seconds : ℕ
  pub fleet_pause_ttl_seconds : ℕ
  pub fleet_sse_heartbeat_interval : ℕ

abbrev pub default_settings : Settings
default_settings = record {
  fleet_lineage_max_depth = 10;
  fleet_heartbeat_timeout_seconds = 90;
  fleet_pause_ttl_seconds = 3600;
  fleet_sse_heartbeat_interval = 15;
}

-- One reading of the clock for the whole request, in microseconds, and the identifier that
-- `uuid.uuid4()` yields, with its prefix.
pub record Ambient : Type 0 where
  pub now : ℕ
  pub new_id : String
