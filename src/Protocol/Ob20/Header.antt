-- ===== src/Protocol/Ob20/Header.antt =====
-- internal/protocol/ob20.go: OB20Header, Encode, Decode and PeekIsOB20.
pub mod RoundTrip
use obconnector_go.Common.{
  ℕ, zero, suc, ◌+◌, ◌-◌, ◌*◌, ◌/◌, ◌%◌, ◌^◌, ◌≤◌, ◌<◌, min, max, bit_and, bit_or, bit_xor, String,
  ◌≡◌, refl, sym, ap, ap₂, ◌∙◌, subst, ◌≢◌, ◌↔◌, ◌⊎◌, inl, inr, Bool, true, false, not, ◌&&◌, ◌||◌,
  Option, none, some, List, [], ◌∷◌, ◌++◌, map, reverse, append-nil, append_assoc, arith, ltb, leb,
  ◌==◌, if◌then◌else◌, ltb→lt, lt→ltb, ltb-false, leb→le, ==_refl, ==_iff, tests, Bool-cases,
  Option-cases, length, get_or, take, drop, replicate, All, slice, length-append, length-take,
  length-drop, take-append-drop, take_all, drop_all, take-append, drop-append, All-append, Error,
  eof, unexpected_eof, bad_conn, net_error, malformed_length_encoded_integer, seq_error,
  server_error, message, wrap, wrap_two, Outcome, ok, err, panic, stuck, ◌>>=◌, ◌>>◌, guard,
  Answers, >>=-eq-ok, Answers-bind, Answers-cases,
}
use obconnector_go.Common.Bytes.{
  Bytes, IsByte, codes, le_bytes, le_value, or_value, three_bytes, beq_bytes, beq_bytes_refl,
  length-le_bytes, le_bytes-IsByte, le_value-le_bytes, or_value_lem,
}
use obconnector_go.Protocol.Ob20.Checksum.{crc16}

abbrev pub ob20_magic_num : ℕ
ob20_magic_num = 0x20AB

abbrev pub ob20_version : ℕ
ob20_version = 20

abbrev pub compress_header_len : ℕ
compress_header_len = 7

abbrev pub ob20_header_len : ℕ
ob20_header_len = 24

abbrev pub total_header_len : ℕ
total_header_len = 31

abbrev pub ob20_tail_len : ℕ
ob20_tail_len = 4

abbrev pub ob20_extra_length_field : ℕ
ob20_extra_length_field = 4

abbrev pub ob20_flag_extra_info : ℕ
ob20_flag_extra_info = 1

abbrev pub ob20_flag_last : ℕ
ob20_flag_last = 2

abbrev pub ob20_flag_new_extra_info : ℕ
ob20_flag_new_extra_info = 8

pub record Ob20Header : Type 0 where
  pub compress_length : ℕ
  pub compress_seq_no : ℕ
  pub uncompress_length : ℕ
  pub magic_num : ℕ
  pub version : ℕ
  pub connection_id : ℕ
  pub request_id : ℕ
  pub packet_seq : ℕ
  pub payload_len : ℕ
  pub flag : ℕ
  pub reserved : ℕ
  pub header_crc : ℕ

-- The first 29 bytes that Encode writes, which the checksum covers.
unfoldable pub encode_fields : Ob20Header → Bytes
unfolding le_bytes three_bytes
encode_fields h =
    three_bytes h.compress_length
    ++ (h.compress_seq_no
        ∷ (three_bytes h.uncompress_length
            ++ (le_bytes 2 h.magic_num
                ++ (le_bytes 2 h.version
                    ++ (le_bytes 4 h.connection_id
                        ++ (three_bytes h.request_id
                            ++ (h.packet_seq
                                ∷ (le_bytes 4 h.payload_len
                                    ++ (le_bytes 4 h.flag ++ le_bytes 2 h.reserved)))))))))

-- The buffer after Encode, and the header with its HeaderCRC set.
unfoldable pub encode : Ob20Header → Bytes × Ob20Header
encode h =
    let crc = crc16 (encode_fields h) in
    (encode_fields h ++ le_bytes 2 crc, record h { header_crc = crc })

-- The assignments of Decode.
unfoldable pub decode_fields : Bytes → Ob20Header
unfolding le_value or_value
decode_fields buf = record {
  compress_length = or_value (get_or buf 0 0) (get_or buf 1 0) (get_or buf 2 0);
  compress_seq_no = get_or buf 3 0;
  uncompress_length = or_value (get_or buf 4 0) (get_or buf 5 0) (get_or buf 6 0);
  magic_num = le_value (slice 7 9 buf);
  version = le_value (slice 9 11 buf);
  connection_id = le_value (slice 11 15 buf);
  request_id = or_value (get_or buf 15 0) (get_or buf 16 0) (get_or buf 17 0);
  packet_seq = get_or buf 18 0;
  payload_len = le_value (slice 19 23 buf);
  flag = le_value (slice 23 27 buf);
  reserved = le_value (slice 27 29 buf);
  header_crc = le_value (slice 29 31 buf);
}

-- What Decode leaves in the header; `none` where it answers false.
unfoldable pub decode : Bytes → Option Ob20Header
unfolding decode_fields
decode buf =
    if ltb (length buf) total_header_len
    then none
    else let h = decode_fields buf in
      if not (h.magic_num == ob20_magic_num) || not (h.version == ob20_version)
      then none
      else if not (h.header_crc == 0)
      then (if h.header_crc == crc16 (slice 0 29 buf) then some h else none)
      else some h

unfoldable pub peek_is_ob20 : Bytes → Bool
unfolding le_value
peek_is_ob20 buf =
    if ltb (length buf) total_header_len
    then false
    else le_value (slice 7 9 buf) == ob20_magic_num && le_value (slice 9 11 buf) == ob20_version
