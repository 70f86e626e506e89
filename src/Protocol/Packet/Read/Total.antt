-- ===== src/Protocol/Packet/Read/Total.antt =====
-- ReadPacket comes to an end on every stream: a round that goes on has made the rest shorter.
use obconnector_go.Common.{
  ℕ, zero, suc, ◌+◌, ◌≤◌, ◌<◌, ◌≡◌, inl, inr, true, false, [], ◌++◌, arith, ◌==◌, if◌then◌else◌,
  Bool-cases, Outcome, err, panic, stuck, ◌∙◌, length, take, drop, slice, length-append,
  length-take, length-drop, ok, Answers, ◌-◌,
}
use obconnector_go.Common.Bytes.{Bytes, le_value}
use obconnector_go.Common.State.{Answers-of_Ensures, Ensures, Ensures-bind, Ensures-lift}
use obconnector_go.Protocol.Packet.Conn.{PacketConn, Zlib, read_full, bump_seq}
use obconnector_go.Protocol.Packet.Read.{
  Round, done, again, len_at, holds_packet, strip_extra, header_of, payload_of, read_frame,
  ob20_round, unpack, compressed_round, plain_round, round, read_loop, read_packet,
}

-- What is still to be read; the compressed form does not read `mysqlBuf` at the start of a round.
abbrev pub left : PacketConn → ℕ
left c = length c.incoming + (if c.ob20 then length c.mysql_buf else 0)

-- A round answers, and where it goes on less is left and the form of framing is the same.
abbrev Shrinks : PacketConn → Round → PacketConn → Type 0
Shrinks c (again out) c' = (left c' < left c) × (c'.ob20 ≡ c.ob20)
Shrinks c (done out) c' = (left c' < left c) × (c'.ob20 ≡ c.ob20)

-- What a read of n bytes leaves.
abbrev Took : ℕ → PacketConn → Bytes → PacketConn → Type 0
Took n c bytes c' =
    (length c'.incoming + n ≡ length c.incoming)
    × (length bytes ≡ n)
    × (c'.mysql_buf ≡ c.mysql_buf)
    × (c'.ob20 ≡ c.ob20)

read_full-Took : (n : ℕ) (c : PacketConn) → Ensures (Took n c) (read_full n c)
unfolding read_full
read_full-Took n c = ground (arith, length-drop n c.incoming, length-take n c.incoming)

plain_round-Shrinks :
    (out : Bytes) (c : PacketConn) → c.ob20 ≡ false → Ensures (Shrinks c) (plain_round out c)
unfolding plain_round read_full
plain_round-Shrinks out c e = ground (
  arith,
  length-drop 4 c.incoming,
  length-drop (len_at 0 (take 4 c.incoming)) (drop 4 c.incoming),
)

header_of-Answers : (bytes : Bytes) → Answers (header_of bytes)
unfolding header_of
header_of-Answers bytes = ground arith

payload_of-Answers : (payload trailer : Bytes) → Answers (payload_of payload trailer)
unfolding payload_of
payload_of-Answers payload trailer = ground arith

strip_extra-Answers : (flag : ℕ) (payload : Bytes) → Answers (strip_extra flag payload)
unfolding strip_extra
strip_extra-Answers flag payload = ground arith

length-strip_extra :
    (flag : ℕ) (payload r : Bytes) → strip_extra flag payload ≡ ok r → length r ≤ length payload
unfolding strip_extra
length-strip_extra flag payload r e =
    let extra_total = 4 + le_value (take 4 payload) in
    ground (
      arith,
      length-take (length payload - extra_total) (drop extra_total payload),
      length-drop extra_total payload,
    )

read_frame-Shrinks :
    (out : Bytes) (c : PacketConn) → c.ob20 ≡ true → Ensures (Shrinks c) (read_frame out c)
unfolding read_frame
read_frame-Shrinks out c e =
    Ensures-bind (Took 31 c) (Shrinks c) _ _ (read_full-Took 31 c) λ header c1 t1.
      Ensures-lift (Shrinks c) (header_of header) c1 _ (header_of-Answers header) λ h _.
        Ensures-bind (Took h.payload_len c1) (Shrinks c) _ _ (read_full-Took h.payload_len c1)
          λ payload c2 t2.
            Ensures-bind (Took 4 c2) (Shrinks c) _ _ (read_full-Took 4 c2) λ trailer c3 t3.
              Ensures-lift (Shrinks c) (payload_of payload trailer) c3 _
                (payload_of-Answers payload trailer)
                λ _ _.
                  Ensures-lift (Shrinks c) (strip_extra h.flag payload) c3 _
                    (strip_extra-Answers h.flag payload)
                    λ bytes r. ground (
                      arith,
                      length-strip_extra h.flag payload bytes r,
                      length-append c3.mysql_buf bytes,
                    )

ob20_round-Shrinks :
    (out : Bytes) (c : PacketConn) → c.ob20 ≡ true → Ensures (Shrinks c) (ob20_round out c)
unfolding ob20_round
ob20_round-Shrinks out c e = elim (Bool-cases (holds_packet c.mysql_buf)) [
  | inl held ↦ rw held (ground (arith, length-drop (4 + len_at 0 c.mysql_buf) c.mysql_buf))
  | inr short ↦ rw short (read_frame-Shrinks out c e)
]

unpack-Shrinks :
    (fuel : ℕ) (out : Bytes) (c d : PacketConn)
    → length c.mysql_buf < fuel
    → c.ob20 ≡ false
    → d.ob20 ≡ false
    → length c.incoming < length d.incoming
    → Ensures (Shrinks d) (unpack fuel out c)
unfolding unpack holds_packet
unpack-Shrinks zero out c d h e g l = absurd (omega arith)
unpack-Shrinks (suc fuel) out c d h e g l =
    let size = len_at 0 c.mysql_buf in
    let c' = bump_seq (record c { mysql_buf = drop (4 + size) c.mysql_buf }) in
    ground (
      arith,
      length-drop (4 + size) c.mysql_buf,
      unpack-Shrinks fuel (out ++ slice 4 (4 + size) c.mysql_buf) c' d,
    )

-- What is relied on of zlib: it answers, with bytes or an error.
abbrev pub ZlibAnswers : Zlib → Type 0
ZlibAnswers z = (p : Bytes) (n : ℕ) → Answers (z.inflate p n)

compressed_round-Shrinks :
    (z : Zlib) (out : Bytes) (c : PacketConn)
    → ZlibAnswers z
    → c.ob20 ≡ false
    → Ensures (Shrinks c) (compressed_round z out c)
unfolding compressed_round
compressed_round-Shrinks z out c za e =
    Ensures-bind (Took 7 c) (Shrinks c) _ _ (read_full-Took 7 c) λ header c1 t1.
      Ensures-bind (Took (len_at 0 header) c1) (Shrinks c) _ _ (read_full-Took (len_at 0 header) c1)
        λ payload c2 t2. elim (Bool-cases (len_at 4 header == 0)) [
          | inl raw ↦ rw raw (grind arith)
          | inr packed ↦ rw packed (
              Ensures-lift (Shrinks c) (z.inflate payload (len_at 4 header)) c2 _
                (za payload (len_at 4 header))
                λ bytes _.
                  unpack-Shrinks _ out (record c2 { mysql_buf = c2.mysql_buf ++ bytes }) c
                    (omega arith) (ground arith) e (ground arith))
        ]

round-Shrinks :
    (z : Zlib) (out : Bytes) (c : PacketConn) → ZlibAnswers z → Ensures (Shrinks c) (round z out c)
unfolding round
round-Shrinks z out c za = elim (Bool-cases c.ob20) [
  | inl v2 ↦ ground (arith, ob20_round-Shrinks out c v2)
  | inr v1 ↦ ground (arith, compressed_round-Shrinks z out c za v1, plain_round-Shrinks out c v1)
]

-- A packet that has been read has taken something of the stream or of `mysqlBuf`.
abbrev pub Consumes : PacketConn → Bytes → PacketConn → Type 0
Consumes c p c' = (left c' < left c) × (c'.ob20 ≡ c.ob20)

Consumes-trans :
    (c d : PacketConn) (p : Bytes) (m : Outcome Bytes × PacketConn)
    → (left d < left c) × (d.ob20 ≡ c.ob20)
    → Ensures (Consumes d) m
    → Ensures (Consumes c) m
Consumes-trans c d p (ok q, c') h (l, e) = (omega arith, e ∙ h.1)
Consumes-trans c d p (err x, c') h k = tt
Consumes-trans c d p (panic, c') h k = k
Consumes-trans c d p (stuck, c') h k = k

read_loop-Consumes :
    (z : Zlib) (fuel : ℕ) (out : Bytes) (c : PacketConn)
    → ZlibAnswers z
    → left c < fuel
    → Ensures (Consumes c) (read_loop z fuel out c)
unfolding read_loop
read_loop-Consumes z zero out c za h = absurd (omega arith)
read_loop-Consumes z (suc fuel) out c za h =
    Ensures-bind (Shrinks c) (Consumes c) (round z out c) _ (round-Shrinks z out c za) (elim [
      | done p ↦ λ c' t. t
      | again out' ↦
          λ c' t. Consumes-trans c c' [] _ t (read_loop-Consumes z fuel out' c' za (omega arith))
    ])

pub read_packet-Consumes :
    (z : Zlib) (c : PacketConn) → ZlibAnswers z → Ensures (Consumes c) (read_packet z c)
unfolding read_packet
read_packet-Consumes z c za =
    read_loop-Consumes z (suc (length c.incoming + length c.mysql_buf)) [] c za (ground arith)

-- ReadPacket ends on every stream and in every state, with a packet or with an error: it neither
-- loops nor panics, as long as zlib does not.
pub read_packet-Answers : (z : Zlib) (c : PacketConn) → ZlibAnswers z → Answers (read_packet z c).0
read_packet-Answers z c za = Answers-of_Ensures (Consumes c) _ (read_packet-Consumes z c za)
