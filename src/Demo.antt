-- ===== src/Demo.antt =====
-- The result rows of services/api/splitbind/demo/models.py, which say who works on a job and what came
-- of it.
pub mod Output
pub mod Evidence
pub mod Outcome
mod Tests
