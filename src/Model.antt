-- ===== src/Model.antt =====
-- The rows of the database that several components share, their JSON columns, and the object keys of the storage.
pub mod Evidence
pub mod Keys
pub mod Rows
pub mod Table
