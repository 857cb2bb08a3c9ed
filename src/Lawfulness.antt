-- ===== src/Lawfulness.antt =====
-- Every handler commits a lawful unit of work.
pub mod Rules
pub mod Single
pub mod Succession
pub mod Others
