-- ===== src/Store.antt =====
-- The database that the handlers share, and the unit of work that a session commits.
mod Table
mod Commit
mod Events
pub mod Lawful
pub mod Kept
pub mod Keyed
pub mod WellFormed
unfoldable pub use Table.*
unfoldable pub use Commit.*
unfoldable pub use Events.*
