-- ===== src/Protocol/Packet/Conn.antt =====
-- internal/protocol/packet.go: the state of PacketConn, the stream below it, and the methods
-- that only set fields. The trace writer is left out: it changes no state.
use obconnector_go.Common.{
  ℕ, ◌+◌, ◌-◌, ◌%◌, ◌^◌, Bool, true, false, not, Option, none, some, List, [], ◌∷◌, ◌++◌, leb, ◌==◌,
  if◌then◌else◌, length, take, drop, Error, eof, unexpected_eof, net_error, Outcome, ok, err,
}
use obconnector_go.Common.Bytes.{Bytes}
use obconnector_go.Common.State.{Method}
use obconnector_go.Protocol.Ob20.ExtraInfo.{Ob20ExtraInfo}

-- `incoming` is what the peer sent and no read has taken; a read beyond it meets `at_end`, which
-- is `eof` where the peer closed the stream. Each call of Write takes an entry of `faults`:
-- `some n` is a call that fails after n bytes; when none is left, calls succeed.
pub record PacketConn : Type 0 where
  pub incoming : Bytes
  pub at_end : Error
  pub outgoing : Bytes
  pub faults : List (Option ℕ)
  pub seq : ℕ
  pub ob20 : Bool
  pub ob20_magic : ℕ
  pub connection_id : ℕ
  pub request_id : ℕ
  pub extra_infos : List Ob20ExtraInfo
  pub mysql_buf : Bytes
  pub ob20_new_extra_info : Bool
  pub ob20_checksum : Bool
  pub compressed : Bool

-- NewPacketConn on a stream.
abbrev pub new_packet_conn : Bytes → Error → List (Option ℕ) → PacketConn
new_packet_conn incoming at_end faults = record {
  incoming = incoming;
  at_end = at_end;
  outgoing = [];
  faults = faults;
  seq = 0;
  ob20 = false;
  ob20_magic = 0;
  connection_id = 0;
  request_id = 0;
  extra_infos = [];
  mysql_buf = [];
  ob20_new_extra_info = false;
  ob20_checksum = false;
  compressed = false;
}

-- The error of io.ReadFull on a stream that ends after some of the bytes.
abbrev cut_short : Error → Error
cut_short eof = unexpected_eof
cut_short e = e

-- `io.ReadFull(c.rw, buf)` for a buffer of n bytes.
unfoldable pub read_full : ℕ → Method PacketConn Bytes
read_full n c =
    if leb n (length c.incoming)
    then (ok (take n c.incoming), record c { incoming = drop n c.incoming })
    else if length c.incoming == 0
    then (err c.at_end, c)
    else (err (cut_short c.at_end), record c { incoming = [] })

unfoldable pub write_with : List (Option ℕ) → Bytes → Method PacketConn (Unit {0})
write_with [] p c = (ok tt, record c { outgoing = c.outgoing ++ p })
write_with (none ∷ fs) p c = (ok tt, record c { outgoing = c.outgoing ++ p; faults = fs })
write_with (some n ∷ fs) p c =
    (err net_error, record c { outgoing = c.outgoing ++ take n p; faults = fs })

-- `c.rw.Write(p)`
unfoldable pub write : Bytes → Method PacketConn (Unit {0})
unfolding write_with
write p c = write_with c.faults p c

abbrev pub reset_sequence : PacketConn → PacketConn
reset_sequence c = record c { seq = 0 }

unfoldable pub enable_ob20 : ℕ → ℕ → Bool → Bool → PacketConn → PacketConn
enable_ob20 connection_id magic new_extra_info disable_checksum c = record c {
  ob20 = true;
  ob20_magic = magic;
  connection_id = connection_id;
  ob20_new_extra_info = new_extra_info;
  ob20_checksum = not disable_checksum;
}

abbrev pub add_extra_info : ℕ → Bytes → PacketConn → PacketConn
add_extra_info typ bytes c = record c {
  extra_infos = c.extra_infos ++ record { info_type = typ; content = bytes } ∷ [];
}

abbrev pub clear_extra_info : PacketConn → PacketConn
clear_extra_info c = record c { extra_infos = [] }

abbrev pub next_request : PacketConn → PacketConn
next_request c = record c { request_id = (c.request_id + 1) % 2 ^ 32 }

abbrev pub enable_compression : PacketConn → PacketConn
enable_compression c = record c { compressed = true }

-- `c.seq++` on a byte.
abbrev pub bump_seq : PacketConn → PacketConn
bump_seq c = record c { seq = (c.seq + 1) % 256 }

-- `1<<24 - 1`, and what an OB 2.0 frame leaves of it.
abbrev pub max_payload_len : ℕ
max_payload_len = 2 ^ 24 - 1

abbrev pub max_ob20_chunk : ℕ
max_ob20_chunk = 2 ^ 24 - 1 - 24 - 4 - 4

-- compress/zlib: reading n bytes out of a compressed stream, and compressing into one.
pub record Zlib : Type 0 where
  pub inflate : Bytes → ℕ → Outcome Bytes
  pub deflate : Bytes → Bytes
