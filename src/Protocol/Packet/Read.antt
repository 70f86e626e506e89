-- ===== src/Protocol/Packet/Read.antt =====
-- internal/protocol/packet.go: ReadPacket. One function is one way round its loop, which ends
-- with the packet or goes on with what it has gathered in `out`.
pub mod Total
use obconnector_go.Common.{
  ℕ, zero, suc, ◌+◌, ◌-◌, ◌*◌, ◌/◌, ◌%◌, ◌^◌, ◌≤◌, ◌<◌, min, max, bit_and, bit_or, bit_xor, String,
  ◌≡◌, refl, sym, ap, ap₂, ◌∙◌, subst, ◌≢◌, ◌↔◌, ◌⊎◌, inl, inr, Bool, true, false, not, ◌&&◌, ◌||◌,
  Option, none, some, List, [], ◌∷◌, ◌++◌, map, reverse, append-nil, append_assoc, arith, ltb, leb,
  ◌==◌, if◌then◌else◌, ltb→lt, lt→ltb, ltb-false, ltb-false→le, leb→le, ==_refl, ==_iff, tests,
  Bool-cases, Option-cases, length, get_or, take, drop, replicate, All, slice, length-append,
  length-take, length-drop, take-append-drop, take_all, drop_all, take-append, drop-append,
  All-append, Error, eof, unexpected_eof, bad_conn, net_error, malformed_length_encoded_integer,
  seq_error, server_error, message, wrap, wrap_two, Outcome, ok, err, panic, stuck, guard, span,
  Answers, >>=-eq-ok, Answers-bind, Answers-cases,
}
use obconnector_go.Common.Bytes.{
  Bytes, IsByte, codes, le_bytes, le_value, or_value, three_bytes, beq_bytes, beq_bytes_refl,
  length-le_bytes, le_bytes-IsByte, le_value-le_bytes, or_value_lem,
}
use obconnector_go.Common.State.{
  Method, return, fail, lift, gets, modify, check, after, ◌>>=◌, ◌>>◌,
}
use obconnector_go.Protocol.Ob20.Checksum.{ob20_payload_checksum}
use obconnector_go.Protocol.Ob20.Header.{
  Ob20Header, decode, total_header_len, ob20_header_len, ob20_tail_len, ob20_extra_length_field,
  ob20_flag_extra_info,
}
use obconnector_go.Protocol.Packet.Conn.{PacketConn, Zlib, read_full, bump_seq, max_payload_len}

pub data Round : Type 0 where
  done again : Bytes → Round

-- The three-byte length at the front of a MySQL packet, or of a header like it.
unfoldable pub len_at : ℕ → Bytes → ℕ
len_at i bytes = or_value (get_or bytes i 0) (get_or bytes (i + 1) 0) (get_or bytes (i + 2) 0)

abbrev next_round : Bytes → ℕ → Round
next_round out size = if ltb size max_payload_len then done out else again out

-- Whether `mysqlBuf` holds a whole packet, and the packet taken out of it.
unfoldable pub holds_packet : Bytes → Bool
holds_packet buf = leb 4 (length buf) && leb (4 + len_at 0 buf) (length buf)

unfoldable pub pop_packet : Bytes → Method PacketConn Round
pop_packet out c =
    let size = len_at 0 c.mysql_buf in
    let payload = slice 4 (4 + size) c.mysql_buf in
    (ok (next_round (out ++ payload) size), record c { mysql_buf = drop (4 + size) c.mysql_buf })

-- The payload behind the extra info whose length field is the slice, if that is in range.
abbrev pub behind_extra : Bytes → Outcome Bytes → Outcome Bytes
behind_extra payload (ok size) =
    let extra_total = ob20_extra_length_field + le_value size in
    if ltb (length payload) extra_total
    then err (message "truncated extra_info: declared %d bytes, payload has %d")
    else span extra_total (length payload) payload
behind_extra payload (err e) = err e
behind_extra payload panic = panic
behind_extra payload stuck = stuck

-- The part of a frame's payload behind its extra info.
unfoldable pub strip_extra : ℕ → Bytes → Outcome Bytes
strip_extra flag payload =
    if not (bit_and flag ob20_flag_extra_info == 0)
    then (if ltb (length payload) ob20_extra_length_field
        then err (message "truncated extra_length in OB20 payload")
        else behind_extra payload (span 0 4 payload))
    else ok payload

unfoldable pub header_of : Bytes → Outcome Ob20Header
header_of bytes = elim (decode bytes) [
  | none ↦ err (message "invalid OB 2.0 header")
  | some h ↦
      if not (h.compress_length == (ob20_header_len + h.payload_len + ob20_tail_len) % 2 ^ 32)
      then err (message "OB20 packet length mismatch: compressLength=%d, expected=%d (payload=%d)")
      else if not (h.uncompress_length == 0)
      then err (message "OB20 unexpected uncompress length: %d")
      else ok h
]

unfoldable pub payload_of : Bytes → Bytes → Outcome (Unit {0})
payload_of payload trailer =
    let expected = le_value trailer in
    if not (expected == 0) && not (ob20_payload_checksum payload == expected)
    then err (message "invalid OB 2.0 payload checksum: expected 0x%08x, got 0x%08x")
    else ok tt

-- One frame is read, and its MySQL bytes are put behind `mysqlBuf`.
unfoldable pub read_frame : Bytes → Method PacketConn Round
read_frame out = do
  header ← read_full total_header_len
  h ← lift (header_of header)
  payload ← read_full h.payload_len
  trailer ← read_full 4
  lift (payload_of payload trailer)
  bytes ← lift (strip_extra h.flag payload)
  modify (λ c. record c { mysql_buf = c.mysql_buf ++ bytes })
  return (again out)

unfoldable pub ob20_round : Bytes → Method PacketConn Round
unfolding holds_packet pop_packet
ob20_round out c = if holds_packet c.mysql_buf then pop_packet out c else read_frame out c

-- The inner loop of the compressed form, and the lines behind it.
unfoldable pub unpack : ℕ → Bytes → Method PacketConn Round
unpack zero out c = (stuck, c)
unpack (suc fuel) out c =
    let size = len_at 0 c.mysql_buf in
    let out' = out ++ slice 4 (4 + size) c.mysql_buf in
    let c' = bump_seq (record c { mysql_buf = drop (4 + size) c.mysql_buf }) in
    let rest = unpack fuel out' c' in
    if holds_packet c.mysql_buf
    then (if ltb size max_payload_len then (ok (done out'), c') else rest)
    else (ok (if ltb 0 (length out) then done out else again out), c)

unfoldable pub compressed_round : Zlib → Bytes → Method PacketConn Round
compressed_round z out = do
  header ← read_full 7
  payload ← read_full (len_at 0 header)
  let uncompress_len = len_at 4 header
  if uncompress_len == 0 then return (done (out ++ payload)) else do
    bytes ← lift (z.inflate payload uncompress_len)
    modify (λ c. record c { mysql_buf = c.mysql_buf ++ bytes })
    n ← gets (λ c. length c.mysql_buf)
    unpack (suc n) out

unfoldable pub plain_round : Bytes → Method PacketConn Round
plain_round out = do
  header ← read_full 4
  want ← gets (λ c. c.seq)
  check (get_or header 3 0 == want) (seq_error (get_or header 3 0) want)
  modify bump_seq
  payload ← read_full (len_at 0 header)
  return (next_round (out ++ payload) (len_at 0 header))

unfoldable pub round : Zlib → Bytes → Method PacketConn Round
unfolding ob20_round compressed_round plain_round
round z out c =
    if c.ob20
    then ob20_round out c
    else if c.compressed
    then compressed_round z out c
    else plain_round out c

unfoldable pub read_loop : Zlib → ℕ → Bytes → Method PacketConn Bytes
read_loop z zero out c = (stuck, c)
read_loop z (suc fuel) out c =
    after (round z out c).0
      (λ r c'. elim r [ done p ↦ (ok p, c') | again out' ↦ read_loop z fuel out' c' ])
      (round z out c).1

-- Every round that goes on has taken bytes from the stream or from `mysqlBuf`.
unfoldable pub read_packet : Zlib → Method PacketConn Bytes
unfolding read_loop
read_packet z c = read_loop z (suc (length c.incoming + length c.mysql_buf)) [] c
