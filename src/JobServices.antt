-- ===== src/JobServices.antt =====
-- The services on jobs: services/api/splitbind/jobs/services.py.
pub mod State
pub mod Promote
pub mod Finalize
pub mod Create
pub mod Cancel
mod Tests
