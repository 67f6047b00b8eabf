-- ===== src/Uploads.antt =====
-- Upload requests: services/api/splitbind/uploads.
pub mod Promotion
pub mod Save
pub mod Requests
mod Tests
