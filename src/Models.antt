-- ===== src/Models.antt =====
-- The data that the engine keeps: backend/app/models.
pub mod Enums
pub mod Rows
pub mod Commands
