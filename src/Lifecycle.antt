-- ===== src/Lifecycle.antt =====
-- src/fleet_api/tasks/lifecycle.py: the operations of a task's principal.
pub mod Access
pub mod Successor
pub mod Cancel
pub mod Pause
pub mod Resume
pub mod Retask
pub mod Redirect
pub mod Lineage
pub mod Chain
pub mod Cancellation
pub mod Suspension
pub mod Succeeding
