-- ===== src/Protocol/Packet/Write.antt =====
-- internal/protocol/packet.go: WritePacket and writeEmptyContinuation.
pub mod Total
use obconnector_go.Common.{
  ℕ, zero, suc, ◌+◌, ◌-◌, ◌%◌, ◌^◌, min, bit_and, bit_or, Bool, false, not, ◌&&◌, List, [], ◌∷◌,
  ◌++◌, ltb, ◌==◌, if◌then◌else◌, length, take, drop, ok, stuck,
}
use obconnector_go.Common.Bytes.{Bytes, le_bytes, three_bytes}
use obconnector_go.Common.State.{Method, after, ◌>>◌}
use obconnector_go.Protocol.Ob20.Checksum.{ob20_payload_checksum}
use obconnector_go.Protocol.Ob20.ExtraInfo.{Ob20ExtraInfo, encode_info, total_len}
use obconnector_go.Protocol.Ob20.Header.{
  Ob20Header, encode, total_header_len, compress_header_len, ob20_tail_len, ob20_version,
  ob20_flag_last, ob20_flag_extra_info, ob20_flag_new_extra_info,
}
use obconnector_go.Protocol.Packet.Conn.{
  PacketConn, Zlib, write, bump_seq, max_payload_len, max_ob20_chunk,
}

abbrev pub chunk_limit : PacketConn → ℕ
chunk_limit c = if c.ob20 then max_ob20_chunk else max_payload_len

abbrev pub sum_total_len : List Ob20ExtraInfo → ℕ
sum_total_len [] = 0
sum_total_len (e ∷ es) = total_len e + sum_total_len es

abbrev pub encode_all : List Ob20ExtraInfo → Bytes
encode_all [] = []
encode_all (e ∷ es) = encode_info e ++ encode_all es

abbrev pub extra_len : PacketConn → ℕ
extra_len c = if c.ob20 then sum_total_len c.extra_infos else 0

-- The four bytes of a MySQL packet header and the chunk.
unfoldable pub mysql_packet : ℕ → Bytes → Bytes
unfolding three_bytes
mysql_packet seq chunk = three_bytes (length chunk) ++ (seq ∷ chunk)

unfoldable pub payload_buf : PacketConn → Bytes → Bytes
payload_buf c chunk =
    if c.ob20 && ltb 0 (extra_len c)
    then le_bytes 4 (extra_len c % 2 ^ 32) ++ (encode_all c.extra_infos ++ mysql_packet c.seq chunk)
    else mysql_packet c.seq chunk

unfoldable pub frame_flag : PacketConn → Bool → ℕ
frame_flag c with_extra =
    let flag = if with_extra then bit_or ob20_flag_last ob20_flag_extra_info else ob20_flag_last in
    if c.ob20_new_extra_info then bit_or flag ob20_flag_new_extra_info else flag

-- The header that is sent before `payload`; `seq` is the number of the packet inside.
unfoldable pub frame_header : PacketConn → ℕ → Bytes → Bool → Ob20Header
frame_header c seq payload with_extra = record {
  compress_length =
      (total_header_len - compress_header_len + length payload + ob20_tail_len) % 2 ^ 32;
  compress_seq_no = seq;
  uncompress_length = 0;
  magic_num = c.ob20_magic;
  version = ob20_version;
  connection_id = c.connection_id;
  request_id = bit_and c.request_id 0x00FFFFFF;
  packet_seq = seq;
  payload_len = length payload % 2 ^ 32;
  flag = frame_flag c with_extra;
  reserved = 0;
  header_crc = 0;
}

unfoldable pub header_buf : PacketConn → Ob20Header → Bytes
header_buf c h =
    if not c.ob20_checksum
    then take (total_header_len - 2) (encode h).0 ++ 0 ∷ 0 ∷ []
    else (encode h).0

unfoldable pub trailer_of : PacketConn → Bytes → Bytes
trailer_of c payload = le_bytes 4 (if not c.ob20_checksum then 0 else ob20_payload_checksum payload)

-- The three writes of a frame. `c` is the connection after `c.seq++`.
unfoldable pub write_frame : Ob20Header → Bytes → Method PacketConn (Unit {0})
write_frame h payload c =
    (write (header_buf c h) >> write payload >> write (trailer_of c payload)) c

unfoldable pub compressed_header : ℕ → ℕ → ℕ → Bytes
unfolding three_bytes
compressed_header size seq uncompress_len = three_bytes size ++ (seq ∷ three_bytes uncompress_len)

unfoldable pub write_compressed : Zlib → Bytes → Method PacketConn (Unit {0})
write_compressed z payload c =
    let packed = z.deflate payload in
    let seq = (c.seq + 255) % 256 in
    if ltb (length packed) (length payload)
    then (write (compressed_header (length packed) seq (length payload % 2 ^ 32)) >> write packed) c
    else (write (compressed_header (length payload) seq 0) >> write payload) c

-- One way round the loop, for the chunk that it cuts off.
unfoldable pub write_chunk : Zlib → Bytes → Method PacketConn (Unit {0})
write_chunk z chunk c =
    let payload = payload_buf c chunk in
    let c' = bump_seq c in
    if c.ob20
    then write_frame (frame_header c' ((c'.seq + 255) % 256) payload (ltb 0 (extra_len c))) payload
        c'
    else if c.compressed && ltb 50 (length payload)
    then write_compressed z payload c'
    else write payload c'

unfoldable pub write_empty_continuation : Method PacketConn (Unit {0})
write_empty_continuation c =
    let header = mysql_packet c.seq [] in
    let c' = bump_seq c in
    if c.ob20 then write_frame (frame_header c' c.seq header false) header c' else write header c'

unfoldable pub write_loop : Zlib → ℕ → Bytes → Method PacketConn (Unit {0})
write_loop z zero payload c = (stuck, c)
write_loop z (suc fuel) payload c =
    let chunk_len = min (length payload) (chunk_limit c) in
    let rest = drop chunk_len payload in
    after (write_chunk z (take chunk_len payload) c).0
      (λ _ c'.
        let more = write_loop z fuel rest c' in
        if ltb chunk_len (chunk_limit c)
        then (ok tt, c')
        else if length rest == 0
        then write_empty_continuation c'
        else more)
      (write_chunk z (take chunk_len payload) c).1

-- A round that goes on has cut off a whole chunk.
unfoldable pub write_packet : Zlib → Bytes → Method PacketConn (Unit {0})
unfolding write_loop
write_packet z payload c = write_loop z (suc (length payload)) payload c
