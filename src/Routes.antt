-- ===== src/Routes.antt =====
-- The endpoints of src/fleet_api/tasks/routes.py: what each request is answered.
mod Blocks
pub mod Run
pub mod Succession
pub mod Suspension
pub mod Events
pub mod Answers
pub mod Listing
pub mod Clean
pub mod Unchanged
pub mod Expiry
pub mod Created
pub mod Lineage
pub use Blocks.*
