-- ===== src/Protocol/Ob20/Header/RoundTrip.antt =====
-- Decode after Encode.
use obconnector_go.Common.{
  ◌/◌, ◌%◌, ◌^◌, ◌≤◌, ◌<◌, ◌≡◌, refl, ◌⊎◌, true, some, [], ◌∷◌, ◌++◌, arith, length, All, slice,
}
use obconnector_go.Common.Bytes.{Bytes, IsByte, or_value_lem}
use obconnector_go.Protocol.Ob20.Checksum.{crc16}
use obconnector_go.Protocol.Ob20.Checksum.Bounds.{crc16-lt}
use obconnector_go.Protocol.Ob20.Header.{
  Ob20Header, ob20_magic_num, ob20_version, encode_fields, encode, decode, peek_is_ob20,
}

-- Each field fits the bytes that the frame has for it.
pub record FitsFrame (h : Ob20Header) : Type 0 where
  pub compress_length_fits : h.compress_length < 2 ^ 24
  pub compress_seq_no_fits : h.compress_seq_no < 256
  pub uncompress_length_fits : h.uncompress_length < 2 ^ 24
  pub connection_id_fits : h.connection_id < 2 ^ 32
  pub request_id_fits : h.request_id < 2 ^ 24
  pub packet_seq_fits : h.packet_seq < 256
  pub payload_len_fits : h.payload_len < 2 ^ 32
  pub flag_fits : h.flag < 2 ^ 32
  pub reserved_fits : h.reserved < 2 ^ 16
  pub magic_is : h.magic_num ≡ ob20_magic_num
  pub version_is : h.version ≡ ob20_version

pub encode_fields-IsByte : (h : Ob20Header) → FitsFrame h → All IsByte (encode_fields h)
unfolding encode_fields
encode_fields-IsByte h f = omega arith

-- Decode accepts the 31 bytes of a header whose fields fit the frame and restores every field,
-- with the checksum that Encode computed.
pub decode-encode : (h : Ob20Header) → FitsFrame h → decode (encode h).0 ≡ some (encode h).1
unfolding decode encode encode_fields
decode-encode h f = ground (
  arith,
  or_value_lem (h.compress_length % 256) (h.compress_length / 2 ^ 8 % 256)
      (h.compress_length / 2 ^ 16 % 256),
  or_value_lem (h.uncompress_length % 256) (h.uncompress_length / 2 ^ 8 % 256)
      (h.uncompress_length / 2 ^ 16 % 256),
  or_value_lem (h.request_id % 256) (h.request_id / 2 ^ 8 % 256) (h.request_id / 2 ^ 16 % 256),
  crc16-lt (encode_fields h) (encode_fields-IsByte h f),
)

-- A header whose checksum bytes are zero is taken without a check.
pub decode_unchecked :
    (h : Ob20Header)
    → FitsFrame h
    → decode (encode_fields h ++ 0 ∷ 0 ∷ []) ≡ some (record h { header_crc = 0 })
unfolding decode encode_fields
decode_unchecked h f = ground (
  arith,
  or_value_lem (h.compress_length % 256) (h.compress_length / 2 ^ 8 % 256)
      (h.compress_length / 2 ^ 16 % 256),
  or_value_lem (h.uncompress_length % 256) (h.uncompress_length / 2 ^ 8 % 256)
      (h.uncompress_length / 2 ^ 16 % 256),
  or_value_lem (h.request_id % 256) (h.request_id / 2 ^ 8 % 256) (h.request_id / 2 ^ 16 % 256),
)

pub length-encode_fields : (h : Ob20Header) → length (encode_fields h) ≡ 29
unfolding encode_fields
length-encode_fields h = refl

-- Whatever Decode accepts is 31 bytes long at least, has the magic number and the version, and its
-- checksum is zero or that of its first 29 bytes; PeekIsOB20 accepts it too.
pub decode_sound :
    (buf : Bytes) (h : Ob20Header)
    → decode buf ≡ some h
    → (31 ≤ length buf)
      × (h.magic_num ≡ ob20_magic_num)
      × (h.version ≡ ob20_version)
      × ((h.header_crc ≡ 0) ⊎ (h.header_crc ≡ crc16 (slice 0 29 buf)))
      × (peek_is_ob20 buf ≡ true)
unfolding decode peek_is_ob20
decode_sound buf h e = ground arith
