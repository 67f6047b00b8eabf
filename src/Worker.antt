-- ===== src/Worker.antt =====
-- The job queue that the worker reads: services/api/splitbind/demo/worker.py and
-- services/api/splitbind/release/worker.py.
pub mod Db
pub mod Saves
pub mod Outbox
pub mod Queue
pub mod Recovery
pub mod Cleanup
pub mod Invariant
pub mod History
mod Tests
