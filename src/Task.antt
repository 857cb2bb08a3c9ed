-- ===== src/Task.antt =====
-- src/fleet_api/tasks: the state machine of a task and its rows.
pub mod Status
pub mod Row
pub mod Evolution
