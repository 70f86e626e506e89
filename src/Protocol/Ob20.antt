-- ===== src/Protocol/Ob20.antt =====
-- internal/protocol/ob20.go: the 31-byte frame header of OB 2.0, its two checksums, and the
-- extra-info records that a frame may carry.
pub mod Checksum
pub mod Header
pub mod ExtraInfo
