-- ===== src/Sql.antt =====
-- The text of statements: client-side parameters and the session time zone.
pub mod Params
pub mod TimeZone
pub mod Assignment
pub mod Bulk
mod Tests
mod BulkTests
