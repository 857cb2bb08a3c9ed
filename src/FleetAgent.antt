-- ===== src/FleetAgent.antt =====
-- src/fleet_agent: the sidecar beside an agent, without its event streamer (Streamer).
pub mod State
pub mod Control
pub mod Delivered
pub mod Repeated
pub mod Poller
pub mod Pending
pub mod Queued
pub mod Coherent
pub mod Executor
pub mod Numbered
pub mod Stopped
pub mod Heartbeat
pub mod Alive
pub mod Startup
pub mod Registered
