-- ===== src/Protocol/Packet/Frames.antt =====
-- One OB 2.0 frame of internal/protocol/packet.go, from WritePacket through ReadPacket.
pub mod RoundTrip
use obconnector_go.Common.{
  ℕ, zero, suc, ◌+◌, ◌-◌, ◌*◌, ◌/◌, ◌%◌, ◌^◌, ◌≤◌, ◌<◌, min, max, bit_and, bit_or, bit_xor, String,
  ◌≡◌, refl, sym, ap, ap₂, ◌∙◌, subst, ◌≢◌, ◌↔◌, ◌⊎◌, inl, inr, Bool, true, false, not, ◌&&◌, ◌||◌,
  Option, none, some, List, [], ◌∷◌, ◌++◌, map, reverse, append-nil, append_assoc, arith, ltb, leb,
  ◌==◌, if◌then◌else◌, ltb→lt, lt→ltb, ltb-false, ltb-false→le, leb→le, ==_refl, ==_iff, tests,
  Bool-cases, Option-cases, length, get_or, take, drop, replicate, All, slice, length-append,
  length-take, length-drop, take-append-drop, take_all, drop_all, take-append, drop-append,
  All-append, Error, eof, unexpected_eof, bad_conn, net_error, malformed_length_encoded_integer,
  seq_error, server_error, message, wrap, wrap_two, Outcome, ok, err, panic, stuck, guard, Answers,
  >>=-eq-ok, Answers-bind, Answers-cases,
}
use obconnector_go.Common.Bytes.{
  Bytes, IsByte, codes, le_bytes, le_value, or_value, three_bytes, beq_bytes, beq_bytes_refl,
  length-le_bytes, le_bytes-IsByte, le_value-le_bytes, or_value_lem,
}
use obconnector_go.Common.State.{Method, after, ◌>>=◌, ◌>>◌}
use obconnector_go.Protocol.Ob20.Checksum.{crc16, ob20_payload_checksum}
use obconnector_go.Protocol.Ob20.Checksum.Bounds.{ob20_payload_checksum-lt}
use obconnector_go.Protocol.Ob20.ExtraInfo.{Ob20ExtraInfo, encode_info, total_len}
use obconnector_go.Protocol.Ob20.Header.{
  Ob20Header, encode, encode_fields, decode, total_header_len, ob20_flag_extra_info, ob20_magic_num,
}
use obconnector_go.Protocol.Ob20.Header.RoundTrip.{
  FitsFrame, decode-encode, decode_unchecked, length-encode_fields,
}
use obconnector_go.Protocol.Packet.Conn.{
  PacketConn, Zlib, write, read_full, bump_seq, max_payload_len, max_ob20_chunk,
}
use obconnector_go.Protocol.Packet.Read.{
  Round, done, again, header_of, payload_of, strip_extra, read_frame,
}
use obconnector_go.Protocol.Packet.Write.{
  chunk_limit, mysql_packet, payload_buf, frame_header, frame_flag, header_buf, trailer_of,
  write_frame, write_chunk, write_packet, write_loop, extra_len, encode_all, sum_total_len,
}
use obconnector_go.Protocol.Packet.Framing.Reading.{read_full_front}

-- A connection that frames as the server expects it, with what it sends inside its fields.
pub record IsFramed (c : PacketConn) : Type 0 where
  pub is_ob20 : c.ob20 ≡ true
  pub magic_is : c.ob20_magic ≡ ob20_magic_num
  pub connection_id_fits : c.connection_id < 2 ^ 32
  pub seq_fits : c.seq < 256

-- The frame's header as the reader gets it back.
header_back : PacketConn → Ob20Header → Ob20Header
header_back c h = if not c.ob20_checksum then record h { header_crc = 0 } else (encode h).1

cut_header : (h : Ob20Header) → take 29 (encode h).0 ≡ encode_fields h
unfolding encode
cut_header h = take-append 29 (encode_fields h) _ (sym (length-encode_fields h))

decode-header_buf :
    (c : PacketConn) (h : Ob20Header)
    → FitsFrame h
    → decode (header_buf c h) ≡ some (header_back c h)
unfolding header_buf header_back
decode-header_buf c h f = elim (Bool-cases c.ob20_checksum) [
  | inl on ↦ rw on (decode-encode h f)
  | inr off ↦ rw off (rw (cut_header h) (decode_unchecked h f))
]

pub length-header_buf : (c : PacketConn) (h : Ob20Header) → length (header_buf c h) ≡ 31
unfolding header_buf
length-header_buf c h = elim (Bool-cases c.ob20_checksum) [
  | inl on ↦ rw on (
      unfold encode in
      omega (
        arith,
        length-append (encode_fields h) (le_bytes 2 (crc16 (encode_fields h))),
        length-encode_fields h,
        length-le_bytes 2 (crc16 (encode_fields h)),
      ))
  | inr off ↦ rw off (
      rw (cut_header h)
        (omega (arith, length-append (encode_fields h) (0 ∷ 0 ∷ []), length-encode_fields h)))
]

length-trailer_of : (c : PacketConn) (payload : Bytes) → length (trailer_of c payload) ≡ 4
unfolding trailer_of
length-trailer_of c payload = length-le_bytes 4 _

trailer_accepted :
    (c : PacketConn) (payload : Bytes)
    → All IsByte payload
    → payload_of payload (trailer_of c payload) ≡ ok tt
unfolding payload_of trailer_of
trailer_accepted c payload a = ground (
  arith,
  le_value-le_bytes 4 0 (omega arith),
  le_value-le_bytes 4 (ob20_payload_checksum payload)
      (omega (arith, ob20_payload_checksum-lt payload a)),
)

-- A header that says of its payload what is so.
pub record Describes (h : Ob20Header) (payload : Bytes) : Type 0 where
  pub fits : FitsFrame h
  pub compress_length_is : h.compress_length ≡ 28 + length payload
  pub uncompress_length_is : h.uncompress_length ≡ 0
  pub payload_len_is : h.payload_len ≡ length payload

header_accepted :
    (c : PacketConn) (h : Ob20Header) (payload : Bytes)
    → Describes h payload
    → header_of (header_buf c h) ≡ ok (header_back c h)
unfolding header_of
header_accepted c h payload d =
    rw (decode-header_buf c h d.fits, header_of)
      (unfold header_back encode in ground (arith, d.fits.compress_length_fits))

header_back_fields :
    (c : PacketConn) (h : Ob20Header)
    → ((header_back c h).payload_len ≡ h.payload_len) × ((header_back c h).flag ≡ h.flag)
unfolding header_back encode
header_back_fields c h = ground arith

-- A frame written with `c` is read off the stream by any connection.
pub frame_read :
    (out payload body rest : Bytes) (c r : PacketConn) (h : Ob20Header)
    → Describes h payload
    → All IsByte payload
    → strip_extra h.flag payload ≡ ok body
    → r.incoming ≡ header_buf c h ++ (payload ++ (trailer_of c payload ++ rest))
    → read_frame out r
      ≡ (ok (again out), record r { incoming = rest; mysql_buf = r.mysql_buf ++ body })
unfolding read_frame
frame_read out payload body rest c r h d a st e =
    let (len_back, flag_back) = header_back_fields c h in
    let tail = trailer_of c payload ++ rest in
    rw (read_full_front 31 r (header_buf c h) (payload ++ tail) e (sym (length-header_buf c h))) (
      rw (header_accepted c h payload d) (
        rw
          (read_full_front (header_back c h).payload_len (record r { incoming = payload ++ tail })
            payload tail refl (len_back ∙ d.payload_len_is))
          (rw
            (read_full_front 4 (record r { incoming = tail }) (trailer_of c payload) rest refl
              (sym (length-trailer_of c payload)))
            (rw (trailer_accepted c payload a, flag_back, st)))))

write_nil :
    (p : Bytes) (c : PacketConn)
    → c.faults ≡ []
    → write p c ≡ (ok tt, record c { outgoing = c.outgoing ++ p })
unfolding write
write_nil p c f = ground arith

pub write_frame_lem :
    (h : Ob20Header) (payload : Bytes) (c : PacketConn)
    → c.faults ≡ []
    → write_frame h payload c ≡ (
      ok tt,
      record c { outgoing = c.outgoing ++ (header_buf c h ++ (payload ++ trailer_of c payload)) },
    )
unfolding write_frame
write_frame_lem h payload c f =
    let c1 = record c { outgoing = c.outgoing ++ header_buf c h } in
    let c2 = record c { outgoing = c1.outgoing ++ payload } in
    rw
      (
        write_nil (header_buf c h) c f,
        write_nil payload c1 f,
        write_nil (trailer_of c payload) c2 f,
      )
      (simp append_assoc)
