-- ===== src/Jobs.antt =====
-- services/api/splitbind/jobs: the job record and its state machine.
pub mod State
pub mod Reach
mod Tests
