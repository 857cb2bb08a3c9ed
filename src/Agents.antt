-- ===== src/Agents.antt =====
-- src/fleet_api/agents/schemas.py and agents/routes.py: the body of a registration, and the responses.
pub mod Schema
pub mod Responses
pub mod Trust
