-- ===== src/Session.antt =====
-- The connection: its state, its errors, the results it reads and its life cycle.
pub mod Errors
pub mod Packets
pub mod Conn
pub mod Variables
pub mod Results
pub mod TextRow
pub mod Rows
pub mod Config
pub mod Greeting
pub mod Attributes
pub mod Dsn
pub mod DataSource
pub mod Login
pub mod Lifecycle
pub mod Payloads
pub mod Statements
pub mod Requests
pub mod StmtMethods
mod Tests
mod RowTests
mod DsnTests
