-- ===== src/Protocol/Packet/Frames/RoundTrip.antt =====
-- A packet that fits one OB 2.0 frame, written by one side and read by the other.
use obconnector_go.Common.{
  ℕ, suc, ◌+◌, ◌-◌, ◌/◌, ◌%◌, ◌^◌, ◌≤◌, ◌<◌, min, bit_and, ◌≡◌, refl, sym, ap, ◌∙◌, inl, inr, Bool,
  true, false, List, [], ◌∷◌, ◌++◌, append_assoc, arith, ltb, ◌==◌, lt→ltb, ltb-false→le,
  Bool-cases, length, drop, All, slice, length-append, take_all, drop_all, take-append, drop-append,
  ok, ltb-false, span, span-ok, length-drop,
}
use obconnector_go.Common.Bytes.{
  Bytes, IsByte, le_bytes, length-le_bytes, le_value-le_bytes, or_value_lem,
}
use obconnector_go.Common.Bits.{bit_and-le}
use obconnector_go.Protocol.Ob20.ExtraInfo.{Ob20ExtraInfo, encode_info}
use obconnector_go.Protocol.Ob20.ExtraInfo.RoundTrip.{length-encode_info}
use obconnector_go.Protocol.Ob20.Header.{Ob20Header}
use obconnector_go.Protocol.Packet.Conn.{
  PacketConn, Zlib, bump_seq, max_payload_len, max_ob20_chunk,
}
use obconnector_go.Protocol.Packet.Read.{
  done, again, len_at, strip_extra, read_frame, holds_packet, ob20_round, round, read_packet,
}
use obconnector_go.Protocol.Packet.Write.{
  chunk_limit, mysql_packet, payload_buf, frame_header, frame_flag, header_buf, trailer_of,
  write_chunk, write_packet, write_loop, extra_len, encode_all, sum_total_len,
}
use obconnector_go.Protocol.Packet.Framing.Reading.{loop_done, loop_again, read_packet_lem}
use obconnector_go.Protocol.Packet.Frames.{
  IsFramed, Describes, frame_read, write_frame_lem, length-header_buf,
}

length-encode_all : (es : List Ob20ExtraInfo) → length (encode_all es) ≡ sum_total_len es
length-encode_all [] = refl
length-encode_all (e ∷ es) = omega (
  arith,
  length-append (encode_info e) (encode_all es),
  length-encode_info e,
  length-encode_all es,
)

length-mysql_packet : (seq : ℕ) (chunk : Bytes) → length (mysql_packet seq chunk) ≡ 4 + length chunk
unfolding mysql_packet
length-mysql_packet seq chunk = omega arith

drop_two :
    (front extra rest : Bytes) (n : ℕ)
    → n ≡ length front + length extra
    → drop n (front ++ (extra ++ rest)) ≡ rest
drop_two front extra rest n h =
    ap (drop n) (sym (append_assoc front extra rest))
    ∙ drop-append n (front ++ extra) rest (h ∙ sym (length-append front extra))

strip_sized :
    (flag size : ℕ) (extra rest : Bytes)
    → (bit_and flag 1 == 0) ≡ false
    → size ≡ length extra
    → size < 2 ^ 32
    → strip_extra flag (le_bytes 4 size ++ (extra ++ rest)) ≡ ok rest
unfolding strip_extra
strip_sized flag size extra rest odd e h =
    let front = le_bytes 4 size in
    let bytes = front ++ (extra ++ rest) in
    let long : 4 + size ≤ length bytes = omega (
      arith,
      length-append front (extra ++ rest),
      length-append extra rest,
      length-le_bytes 4 size,
    ) in
    let behind : drop (4 + size) bytes ≡ rest =
      drop_two front extra rest (4 + size) (omega (arith, length-le_bytes 4 size)) in
    let whole : span (4 + size) (length bytes) bytes ≡ ok rest =
      span-ok (4 + size) (length bytes) bytes long (omega arith)
      ∙ ap ok (
          take_all (length bytes - (4 + size)) (drop (4 + size) bytes)
            (omega (arith, length-drop (4 + size) bytes))
          ∙ behind) in
    let cut : slice 0 4 bytes ≡ front =
      take-append 4 front (extra ++ rest) (sym (length-le_bytes 4 size)) in
    rw
      (
        odd,
        span-ok 0 4 bytes (omega arith) (omega arith),
        cut,
        le_value-le_bytes 4 size (omega arith),
        whole,
        ltb-false (length bytes) 4 (omega arith),
        ltb-false (length bytes) (4 + size) long,
      )
      refl

flag_odd : (c : PacketConn) → (bit_and (frame_flag c true) 1 == 0) ≡ false
unfolding frame_flag
flag_odd c = ground arith

flag_even : (c : PacketConn) → (bit_and (frame_flag c false) 1 == 0) ≡ true
unfolding frame_flag
flag_even c = ground arith

extra_len_lem : (c : PacketConn) → c.ob20 ≡ true → extra_len c ≡ length (encode_all c.extra_infos)
extra_len_lem c o = ground (arith, length-encode_all c.extra_infos)

payload_buf_extra :
    (c : PacketConn) (chunk : Bytes)
    → c.ob20 ≡ true
    → extra_len c < 2 ^ 32
    → ltb 0 (extra_len c) ≡ true
    → payload_buf c chunk
      ≡ le_bytes 4 (extra_len c) ++ (encode_all c.extra_infos ++ mysql_packet c.seq chunk)
unfolding payload_buf
payload_buf_extra c chunk o h t =
    let size : extra_len c % 2 ^ 32 ≡ extra_len c = omega arith in rw (t, size) (rw o refl)

payload_buf_plain :
    (c : PacketConn) (chunk : Bytes)
    → ltb 0 (extra_len c) ≡ false
    → payload_buf c chunk ≡ mysql_packet c.seq chunk
unfolding payload_buf
payload_buf_plain c chunk t = ground arith

-- Behind its length field and its extra info a payload holds the MySQL packet.
strip_extra-payload_buf :
    (c : PacketConn) (chunk : Bytes)
    → c.ob20 ≡ true
    → extra_len c < 2 ^ 32
    → strip_extra (frame_flag c (ltb 0 (extra_len c))) (payload_buf c chunk)
      ≡ ok (mysql_packet c.seq chunk)
strip_extra-payload_buf c chunk o h = elim (Bool-cases (ltb 0 (extra_len c))) [
  | inl with_extra ↦
      rw (with_extra, payload_buf_extra c chunk o h with_extra)
        (strip_sized (frame_flag c true) (extra_len c) (encode_all c.extra_infos)
          (mysql_packet c.seq chunk) (flag_odd c) (extra_len_lem c o) h)
  | inr none_there ↦
      rw (none_there, payload_buf_plain c chunk none_there)
        (unfold strip_extra in ground (arith, flag_even c))
]

frame_header-Describes :
    (c : PacketConn) (seq : ℕ) (payload : Bytes) (with_extra : Bool)
    → IsFramed c
    → seq < 256
    → 28 + length payload < 2 ^ 24
    → Describes (frame_header c seq payload with_extra) payload
unfolding frame_header frame_flag
frame_header-Describes c seq payload with_extra f s h =
    ground (arith, f, bit_and-le c.request_id 0x00FFFFFF)

mysql_packet_len :
    (seq : ℕ) (chunk : Bytes)
    → length chunk < max_payload_len
    → len_at 0 (mysql_packet seq chunk) ≡ length chunk
unfolding mysql_packet len_at
mysql_packet_len seq chunk h =
    or_value_lem (length chunk % 256) (length chunk / 2 ^ 8 % 256) (length chunk / 2 ^ 16 % 256)
      (omega arith) (omega arith)
    ∙ omega arith

mysql_packet_body :
    (seq : ℕ) (chunk : Bytes) → slice 4 (4 + length chunk) (mysql_packet seq chunk) ≡ chunk
unfolding mysql_packet
mysql_packet_body seq chunk = take_all (4 + length chunk - 4) chunk (omega arith)

mysql_packet_rest :
    (seq : ℕ) (chunk : Bytes) → drop (4 + length chunk) (mysql_packet seq chunk) ≡ []
mysql_packet_rest seq chunk =
    drop_all (4 + length chunk) (mysql_packet seq chunk)
      (omega (arith, length-mysql_packet seq chunk))

-- The reader takes the only packet out of `mysqlBuf`.
pop_packet_lem :
    (out : Bytes) (seq : ℕ) (chunk : Bytes) (r : PacketConn)
    → length chunk < max_payload_len
    → r.mysql_buf ≡ mysql_packet seq chunk
    → ob20_round out r ≡ (ok (done (out ++ chunk)), record r { mysql_buf = [] })
unfolding ob20_round
pop_packet_lem out seq chunk r h e =
    rw (e, mysql_packet_len seq chunk h, mysql_packet_body seq chunk, mysql_packet_rest seq chunk)
      (ground (arith, length-mysql_packet seq chunk))

ob20_reads :
    (z : Zlib) (out : Bytes) (r : PacketConn) → r.ob20 ≡ true → round z out r ≡ ob20_round out r
unfolding round
ob20_reads z out r o = ground arith

ob20_round-empty :
    (out : Bytes) (r : PacketConn) → r.mysql_buf ≡ [] → ob20_round out r ≡ read_frame out r
unfolding ob20_round holds_packet
ob20_round-empty out r e = ground arith

-- One chunk sent as a frame.
write_chunk_ob20 :
    (z : Zlib) (chunk : Bytes) (c : PacketConn)
    → c.ob20 ≡ true
    → c.faults ≡ []
    → write_chunk z chunk c ≡ (
        let c' = bump_seq c in
        let payload = payload_buf c chunk in
        let h = frame_header c' ((c'.seq + 255) % 256) payload (ltb 0 (extra_len c)) in
        (
          ok tt,
          record c' {
            outgoing = c.outgoing ++ (header_buf c' h ++ (payload ++ trailer_of c' payload));
          },
        ))
unfolding write_chunk
write_chunk_ob20 z chunk c o f =
    let c' = bump_seq c in
    let payload = payload_buf c chunk in
    let h = frame_header c' ((c'.seq + 255) % 256) payload (ltb 0 (extra_len c)) in
    ground (arith, write_frame_lem h payload c' f)

write_packet_short :
    (z : Zlib) (chunk : Bytes) (c c' : PacketConn)
    → length chunk < chunk_limit c
    → write_chunk z chunk c ≡ (ok tt, c')
    → write_packet z chunk c ≡ (ok tt, c')
unfolding write_packet write_loop
write_packet_short z chunk c c' h e =
    let short : min (length chunk) (chunk_limit c) ≡ length chunk = omega arith in
    rw (
      short,
      take_all (length chunk) chunk (omega arith),
      e,
      lt→ltb (length chunk) (chunk_limit c) h,
    )

extra-le-payload :
    (c : PacketConn) (chunk : Bytes) → c.ob20 ≡ true → extra_len c ≤ length (payload_buf c chunk)
unfolding payload_buf
extra-le-payload c chunk o = elim (Bool-cases (ltb 0 (extra_len c))) [
  | inl some_there ↦
      let e = extra_len_lem c o in
      rw (some_there) (
        rw o (
          omega (
            arith,
            length-append (le_bytes 4 (sum_total_len c.extra_infos % 2 ^ 32))
                (encode_all c.extra_infos ++ mysql_packet c.seq chunk),
            length-append (encode_all c.extra_infos) (mysql_packet c.seq chunk),
            length-encode_all c.extra_infos,
          )))
  | inr none_there ↦ omega (arith, ltb-false→le 0 (extra_len c) none_there)
]

two_rounds :
    (z : Zlib) (pkt : Bytes) (c c1 c2 : PacketConn)
    → 0 < length c.incoming
    → round z [] c ≡ (ok (again []), c1)
    → round z [] c1 ≡ (ok (done pkt), c2)
    → read_packet z c ≡ (ok pkt, c2)
two_rounds z pkt c c1 c2 h e e' =
    let k = length c.incoming + length c.mysql_buf - 1 in
    let more : length c.incoming + length c.mysql_buf ≡ suc k = omega arith in
    read_packet_lem z c
    ∙ rw more (loop_again z (suc k) [] [] c c1 e ∙ loop_done z k [] pkt c1 c2 e')

-- A frame at the front of the stream, and the packet inside it.
frame_then_packet :
    (z : Zlib) (chunk payload rest : Bytes) (seq : ℕ) (c r : PacketConn) (h : Ob20Header)
    → Describes h payload
    → All IsByte payload
    → strip_extra h.flag payload ≡ ok (mysql_packet seq chunk)
    → length chunk < max_payload_len
    → r.ob20 ≡ true
    → r.mysql_buf ≡ []
    → r.incoming ≡ header_buf c h ++ (payload ++ (trailer_of c payload ++ rest))
    → read_packet z r ≡ (ok chunk, record r { incoming = rest; mysql_buf = [] })
frame_then_packet z chunk payload rest seq c r h d a st short o empty e =
    let r1 = record r { incoming = rest; mysql_buf = r.mysql_buf ++ mysql_packet seq chunk } in
    two_rounds z chunk r r1 (record r { incoming = rest; mysql_buf = [] })
      (omega (
        arith,
        ap length e,
        length-append (header_buf c h) (payload ++ (trailer_of c payload ++ rest)),
        length-header_buf c h,
      ))
      (ob20_reads z [] r o
        ∙ ob20_round-empty [] r empty
        ∙ frame_read [] payload (mysql_packet seq chunk) rest c r h d a st e)
      (ob20_reads z [] r1 o
        ∙ pop_packet_lem [] seq chunk r1 short
            (ap (λ (t : Bytes). t ++ mysql_packet seq chunk) empty))

module _ (z z' : Zlib) where
  -- A packet that fits one frame, with its extra info, crosses an OB 2.0 connection: the writer
  -- sends a frame and moves its sequence number, and a reader of these bytes, with checksums on
  -- or off, gets the packet and stops where the frame ends.
  pub read-write_packet_ob20 :
      (chunk rest : Bytes) (c r : PacketConn)
      → IsFramed c
      → c.faults ≡ []
      → length chunk < max_ob20_chunk
      → 28 + length (payload_buf c chunk) < 2 ^ 24
      → All IsByte (payload_buf c chunk)
      → r.ob20 ≡ true
      → r.mysql_buf ≡ []
      → (wire : Bytes) × (write_packet z chunk c
          ≡ (ok tt, record (bump_seq c) { outgoing = c.outgoing ++ wire }))
        × (read_packet z' (record r { incoming = wire ++ rest })
            ≡ (ok chunk, record r { incoming = rest; mysql_buf = [] }))
  unfolding frame_header frame_flag
  read-write_packet_ob20 chunk rest c r f nf short fits bytes o empty =
      let c' = bump_seq c in
      let payload = payload_buf c chunk in
      let with_extra = ltb 0 (extra_len c) in
      let h = frame_header c' ((c'.seq + 255) % 256) payload with_extra in
      let wire = header_buf c' h ++ (payload ++ trailer_of c' payload) in
      let d =
        frame_header-Describes c' ((c'.seq + 255) % 256) payload with_extra
          (record {
            is_ob20 = f.is_ob20;
            magic_is = f.magic_is;
            connection_id_fits = f.connection_id_fits;
            seq_fits = omega arith;
          })
          (omega arith) fits in
      (
        wire,
        write_packet_short z chunk c _ (rw f.is_ob20 short)
            (write_chunk_ob20 z chunk c f.is_ob20 nf),
        frame_then_packet z' chunk payload rest c.seq c' (record r { incoming = wire ++ rest }) h d
            bytes
            (strip_extra-payload_buf c chunk f.is_ob20
              (omega (arith, extra-le-payload c chunk f.is_ob20)))
            (omega arith) o empty (simp append_assoc),
      )
