-- ===== src/Protocol/Tests.antt =====
-- Runs of the protocol functions, and the theorems at concrete inputs.
use obconnector_go.Common.{
  ℕ, ◌+◌, ◌-◌, ◌^◌, ◌≤◌, ◌<◌, ◌≡◌, refl, ◌⊎◌, true, false, some, replicate, List, [], ◌∷◌, ◌++◌,
  arith, length, take, All, slice, eof, seq_error, ok, err, Answers,
}
use obconnector_go.Common.Int.{pos}
use obconnector_go.Common.Bytes.{Bytes, IsByte, codes, le_bytes}
use obconnector_go.Protocol.Lenenc.{
  put_length_encoded_int, put_length_encoded_string, read_length_encoded_int,
  read_length_encoded_string,
}
use obconnector_go.Protocol.Lenenc.RoundTrip.{read-put_int, read-put_string, read_string_bounds}
use obconnector_go.Protocol.Ob20.Checksum.{crc16}
use obconnector_go.Protocol.Ob20.ExtraInfo.{Ob20ExtraInfo, encode_info, parse_ob20_extra_info}
use obconnector_go.Protocol.Ob20.ExtraInfo.RoundTrip.{
  encode_infos, parse-encode_infos, parse_ob20_extra_info-Answers,
}
use obconnector_go.Protocol.Ob20.Header.{Ob20Header, encode, decode, peek_is_ob20}
use obconnector_go.Protocol.Ob20.Header.RoundTrip.{FitsFrame, decode-encode, decode_sound}
use obconnector_go.Protocol.Calendar.{Time, Moment}
use obconnector_go.Protocol.Binary.{append_binary_time, parse_binary_time}
use obconnector_go.Protocol.Binary.Times.{read_back, parse-append_binary_time}
use obconnector_go.Protocol.Packet.Conn.{PacketConn, Zlib, new_packet_conn, bump_seq, write}
use obconnector_go.Protocol.Packet.Read.{read_packet}
use obconnector_go.Protocol.Packet.Read.Total.{read_packet-Answers}
use obconnector_go.Protocol.Packet.Write.{
  write_packet, write_chunk, write_compressed, payload_buf, mysql_packet,
}
use obconnector_go.Protocol.Packet.Framing.{numbered, Framing, last}
use obconnector_go.Protocol.Packet.Framing.Written.{sent, IsPlain, write_packet-Framing}
use obconnector_go.Protocol.Packet.Framing.Reading.{
  taken, read_packet-Framing, read_packet_wrong_seq, read-write_packet,
}
use obconnector_go.Protocol.Packet.Frames.{IsFramed}
use obconnector_go.Protocol.Packet.Frames.RoundTrip.{read-write_packet_ob20}
-- A stand-in for compress/zlib that stores its input.
use obconnector_go.Protocol.Packet.Write.Total.{Leaves, write_packet-Leaves}

abbrev storing : Zlib
storing = record { inflate = λ p n. ok (take n p); deflate = λ p. p }

abbrev fresh : PacketConn
fresh = new_packet_conn [] eof []

abbrev fresh_IsPlain : IsPlain fresh
fresh_IsPlain = record { no_ob20 = refl; no_compression = refl }

abbrev hello : Bytes
hello = codes "hello"

abbrev framed : PacketConn
framed = record fresh {
  ob20 = true;
  ob20_magic = 0x20AB;
  connection_id = 77;
  extra_infos = record { info_type = 2001; content = 1 ∷ 2 ∷ [] } ∷ [];
  ob20_checksum = true;
}

abbrev framed_IsFramed : IsFramed framed
framed_IsFramed = record {
  is_ob20 = refl;
  magic_is = refl;
  connection_id_fits = omega arith;
  seq_fits = omega arith;
}

lenenc_300 : put_length_encoded_int [] 300 ≡ 0xfc ∷ 44 ∷ 1 ∷ []
unfolding put_length_encoded_int
lenenc_300 = refl

read-put_int_example :
    read_length_encoded_int (put_length_encoded_int [] 70000 ++ (9 ∷ []))
    ≡ ok (70000, length (put_length_encoded_int [] 70000), false)
read-put_int_example = read-put_int 70000 (9 ∷ []) (omega arith)

read-put_string_example :
    read_length_encoded_string (put_length_encoded_string [] hello ++ (9 ∷ []))
    ≡ ok (hello, length (put_length_encoded_string [] hello), false)
read-put_string_example = read-put_string hello (9 ∷ []) (omega arith)

read_ab : read_length_encoded_string (2 ∷ b'a' ∷ b'b' ∷ 7 ∷ []) ≡ ok (b'a' ∷ b'b' ∷ [], 3, false)
unfolding read_length_encoded_string read_length_encoded_int
read_ab = refl

abbrev ab : Bytes
ab = b'a' ∷ b'b' ∷ []

abbrev ab_wire : Bytes
ab_wire = 2 ∷ b'a' ∷ b'b' ∷ 7 ∷ []

read_string_bounds_example :
    (length ab < 3) × (3 ≤ length ab_wire) × (ab ≡ slice (3 - length ab) 3 ab_wire)
read_string_bounds_example = read_string_bounds ab_wire ab 3 false (omega arith) read_ab

-- The check value of CRC-16/ARC.
crc16_check : crc16 (codes "123456789") ≡ 0xBB3D
unfolding crc16
crc16_check = refl

abbrev a_header : Ob20Header
a_header = record {
  compress_length = 40;
  compress_seq_no = 3;
  uncompress_length = 0;
  magic_num = 0x20AB;
  version = 20;
  connection_id = 99;
  request_id = 5;
  packet_seq = 3;
  payload_len = 12;
  flag = 2;
  reserved = 0;
  header_crc = 0;
}

a_header-FitsFrame : FitsFrame a_header
a_header-FitsFrame = omega arith

decode-encode_example : decode (encode a_header).0 ≡ some (encode a_header).1
decode-encode_example = decode-encode a_header a_header-FitsFrame

decode_sound_example :
    (31 ≤ length (encode a_header).0)
    × ((encode a_header).1.magic_num ≡ 0x20AB)
    × ((encode a_header).1.version ≡ 20)
    × (((encode a_header).1.header_crc ≡ 0)
        ⊎ ((encode a_header).1.header_crc ≡ crc16 (slice 0 29 (encode a_header).0)))
    × (peek_is_ob20 (encode a_header).0 ≡ true)
decode_sound_example =
    decode_sound (encode a_header).0 (encode a_header).1 (decode-encode a_header a_header-FitsFrame)

abbrev two_infos : List Ob20ExtraInfo
two_infos =
    record { info_type = 2001; content = 1 ∷ 2 ∷ [] }
    ∷ record { info_type = 2003; content = [] }
    ∷ []

parse-encode_infos_example : parse_ob20_extra_info (encode_infos two_infos) ≡ ok two_infos
parse-encode_infos_example = parse-encode_infos two_infos (omega arith)

parse_ob20_extra_info-Answers_example : Answers (parse_ob20_extra_info (1 ∷ 2 ∷ 3 ∷ []))
parse_ob20_extra_info-Answers_example = parse_ob20_extra_info-Answers (1 ∷ 2 ∷ 3 ∷ [])

read_packet-Answers_example : Answers (read_packet storing fresh).0
read_packet-Answers_example = read_packet-Answers storing fresh (λ p n. tt)

write_packet-Framing_example :
    (wire : Bytes) × (seq' : ℕ) × Framing 0 hello wire seq'
    × (write_packet storing hello fresh ≡ (ok tt, sent fresh wire seq'))
write_packet-Framing_example = write_packet-Framing storing hello fresh fresh_IsPlain refl

abbrev arrived : PacketConn
arrived = new_packet_conn (numbered 0 hello ++ (9 ∷ [])) eof []

abbrev hello_Framing : Framing 0 hello (numbered 0 hello) 1
hello_Framing = last (omega arith) refl refl

read_packet-Framing_example : read_packet storing arrived ≡ (ok hello, taken arrived (9 ∷ []) 1)
read_packet-Framing_example =
    read_packet-Framing storing (9 ∷ []) arrived hello_Framing
      (record { no_ob20 = refl; no_compression = refl }) refl

abbrev misnumbered : PacketConn
misnumbered = new_packet_conn (numbered 4 hello ++ (9 ∷ [])) eof []

read_packet_wrong_seq_example :
    read_packet storing misnumbered
    ≡ (err (seq_error 4 0), record misnumbered { incoming = hello ++ (9 ∷ []) })
read_packet_wrong_seq_example =
    read_packet_wrong_seq storing 4 hello (9 ∷ []) misnumbered
      (record { no_ob20 = refl; no_compression = refl }) refl (omega arith)

read-write_packet_example :
    (wire : Bytes) × (seq' : ℕ) × (write_packet storing hello fresh ≡ (ok tt, sent fresh wire seq'))
    × (read_packet storing (taken fresh (wire ++ (9 ∷ [])) 0)
        ≡ (ok hello, taken fresh (9 ∷ []) seq'))
read-write_packet_example =
    read-write_packet storing storing hello (9 ∷ []) fresh fresh fresh_IsPlain refl fresh_IsPlain

framed_bytes : All IsByte (payload_buf framed hello)
unfolding payload_buf le_bytes encode_info mysql_packet
framed_bytes = omega arith

framed_fits : 28 + length (payload_buf framed hello) < 2 ^ 24
unfolding payload_buf le_bytes encode_info mysql_packet
framed_fits = omega arith

read-write_packet_ob20_example :
    (wire : Bytes) × (write_packet storing hello framed
      ≡ (ok tt, record (bump_seq framed) { outgoing = framed.outgoing ++ wire }))
    × (read_packet storing (record framed { incoming = wire ++ (9 ∷ []) })
        ≡ (ok hello, record framed { incoming = 9 ∷ []; mysql_buf = [] }))
read-write_packet_ob20_example =
    read-write_packet_ob20 storing storing hello (9 ∷ []) framed framed framed_IsFramed refl
      (omega arith) framed_fits framed_bytes refl refl

abbrev some_time : Time
some_time = record {
  year = 2026;
  month = 2;
  day = 3;
  hour = 4;
  minute = 5;
  sec = 6;
  nsec = 7008009;
}

-- The time in a location five and a half hours ahead of UTC.
abbrev some_moment : Moment
some_moment = record { wall = some_time; ahead = pos 19800 }

parse-append_binary_time_example :
    parse_binary_time (append_binary_time [] some_moment ++ (9 ∷ []))
    ≡ ok (read_back some_moment, length (append_binary_time [] some_moment))
parse-append_binary_time_example = parse-append_binary_time some_moment (9 ∷ []) (record {
  year_fits = omega arith;
  month_fits = omega arith;
  day_fits = omega arith;
  hour_fits = omega arith;
  minute_fits = omega arith;
  sec_fits = omega arith;
  nsec_fits = omega arith;
})

-- A connection with compression, on which a byte is still to be read.
abbrev squeezing : PacketConn
squeezing = record (new_packet_conn (0 ∷ []) eof []) { compressed = true }

squeezed : (write_packet storing (replicate 60 7) squeezing).0 ≡ ok tt
unfolding write_packet write_chunk payload_buf mysql_packet write_compressed write
squeezed = refl

write_packet-Leaves_example : Leaves 1 (write_packet storing (replicate 60 7) squeezing)
write_packet-Leaves_example = write_packet-Leaves storing (replicate 60 7) squeezing
