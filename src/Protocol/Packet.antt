-- ===== src/Protocol/Packet.antt =====
-- internal/protocol/packet.go: PacketConn, its framing of packets on a byte stream in the plain,
-- the compressed and the OB 2.0 form.
pub mod Conn
pub mod Write
pub mod Read
pub mod Framing
pub mod Frames
