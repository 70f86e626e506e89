-- ===== src/Protocol/Ob20/Checksum.antt =====
-- internal/protocol/ob20.go: CRC16 (CRC16-IBM) and OB20PayloadChecksum (CRC32C without the
-- final inversion). A table lookup computes the table's entry; `i` is always below 256.
pub mod Bounds
use obconnector_go.Common.{
  ℕ, zero, suc, ◌+◌, ◌-◌, ◌*◌, ◌/◌, ◌%◌, ◌^◌, ◌≤◌, ◌<◌, min, max, bit_and, bit_or, bit_xor, String,
  ◌≡◌, refl, sym, ap, ap₂, ◌∙◌, subst, ◌≢◌, ◌↔◌, ◌⊎◌, inl, inr, Bool, true, false, not, ◌&&◌, ◌||◌,
  Option, none, some, List, [], ◌∷◌, ◌++◌, map, reverse, append-nil, append_assoc, arith, ltb, leb,
  ◌==◌, if◌then◌else◌, ltb→lt, lt→ltb, ltb-false, leb→le, ==_refl, ==_iff, tests, Bool-cases,
  Option-cases, length, get_or, take, drop, replicate, All, slice, length-append, length-take,
  length-drop, take-append-drop, take_all, drop_all, take-append, drop-append, All-append, Error,
  eof, unexpected_eof, bad_conn, net_error, malformed_length_encoded_integer, seq_error,
  server_error, message, wrap, wrap_two, Outcome, ok, err, panic, stuck, ◌>>=◌, ◌>>◌, guard,
  Answers, >>=-eq-ok, Answers-bind, Answers-cases,
}
use obconnector_go.Common.Bytes.{Bytes}

-- One round of the loop over `j` that fills a table.
crc_round : ℕ → ℕ → ℕ
crc_round poly crc = if not (bit_and crc 1 == 0) then bit_xor (crc / 2) poly else crc / 2

crc_rounds : ℕ → ℕ → ℕ → ℕ
unfolding crc_round
crc_rounds poly zero crc = crc
crc_rounds poly (suc j) crc = crc_rounds poly j (crc_round poly crc)

unfoldable pub crc16_ibm_table : ℕ → ℕ
unfolding crc_rounds
crc16_ibm_table i = crc_rounds 0xA001 8 i

unfoldable pub crc32c_ob_table : ℕ → ℕ
unfolding crc_rounds
crc32c_ob_table i = crc_rounds 0x82F63B78 8 i

crc16_step : ℕ → ℕ → ℕ
unfolding crc16_ibm_table
crc16_step crc b = bit_xor (crc / 2 ^ 8) (crc16_ibm_table (bit_and (bit_xor (crc % 256) b) 0xff))

crc16_from : ℕ → Bytes → ℕ
crc16_from crc [] = crc
crc16_from crc (b ∷ bytes) = crc16_from (crc16_step crc b) bytes

unfoldable pub crc16 : Bytes → ℕ
unfolding crc16_step crc16_from
crc16 bytes = crc16_from 0 bytes

payload_checksum_step : ℕ → ℕ → ℕ
unfolding crc32c_ob_table
payload_checksum_step crc b = bit_xor (crc / 2 ^ 8) (crc32c_ob_table (bit_xor (crc % 256) b))

payload_checksum_from : ℕ → Bytes → ℕ
payload_checksum_from crc [] = crc
payload_checksum_from crc (b ∷ bytes) = payload_checksum_from (payload_checksum_step crc b) bytes

unfoldable pub ob20_payload_checksum : Bytes → ℕ
unfolding payload_checksum_step payload_checksum_from
ob20_payload_checksum bytes = payload_checksum_from 0 bytes
