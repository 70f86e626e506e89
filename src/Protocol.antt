-- ===== src/Protocol.antt =====
-- internal/protocol: the wire protocol.
pub mod Lenenc
pub mod Ob20
pub mod Packet
pub mod Binary
pub mod Calendar
pub mod Zone
pub mod OracleTime
pub mod Auth
mod Tests
mod ValueTests
