-- ===== src/Retention.antt =====
-- The retention of stored objects: services/api/splitbind/retention.
pub mod Policy
pub mod State
pub mod Eligible
pub mod Delete
pub mod Candidates
pub mod Claims
pub mod Lanes
mod Tests
