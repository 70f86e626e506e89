-- ===== src/Protocol/Packet/Framing/Reading.antt =====
-- ReadPacket in the plain form reads any framing, whoever wrote it.
use obconnector_go.Common.{
  ℕ, zero, suc, ◌+◌, ◌/◌, ◌%◌, ◌^◌, ◌≤◌, ◌<◌, ◌≡◌, refl, sym, ap, ap₂, ◌∙◌, ◌≢◌, false, [], ◌∷◌,
  ◌++◌, append_assoc, arith, ltb, ◌==◌, if◌then◌else◌, lt→ltb, ltb-false, ==_refl, length, get_or,
  take, drop, length-append, take-append, drop-append, seq_error, Outcome, ok, err,
}
use obconnector_go.Common.Bytes.{Bytes, three_bytes, or_value_lem}
use obconnector_go.Protocol.Packet.Conn.{PacketConn, Zlib, read_full, max_payload_len}
use obconnector_go.Protocol.Packet.Read.{
  Round, done, again, len_at, plain_round, round, read_loop, read_packet,
}
use obconnector_go.Protocol.Packet.Framing.{numbered, next_seq, Framing, last, full}
use obconnector_go.Protocol.Packet.Framing.Written.{IsPlain, sent, write_packet-Framing}
use obconnector_go.Protocol.Packet.Write.{write_packet}

-- The connection after it has read up to `rest`.
abbrev pub taken : PacketConn → Bytes → ℕ → PacketConn
taken c rest seq = record c { incoming = rest; seq = seq }

read_full_some :
    (n : ℕ) (c : PacketConn)
    → n ≤ length c.incoming
    → read_full n c ≡ (ok (take n c.incoming), record c { incoming = drop n c.incoming })
unfolding read_full
read_full_some n c h = ground arith

abbrev read_as : PacketConn → Bytes → Bytes → Outcome Bytes × PacketConn
read_as c front rest = (ok front, record c { incoming = rest })

-- A read of as many bytes as stand at the front.
pub read_full_front :
    (n : ℕ) (c : PacketConn) (front rest : Bytes)
    → c.incoming ≡ front ++ rest
    → n ≡ length front
    → read_full n c ≡ (ok front, record c { incoming = rest })
read_full_front n c front rest e h =
    read_full_some n c (omega (arith, ap length e, length-append front rest))
    ∙ ap₂ (read_as c) (ap (take n) e ∙ take-append n front rest h)
        (ap (drop n) e ∙ drop-append n front rest h)

abbrev header_of : ℕ → ℕ → Bytes
header_of seq size = three_bytes size ++ (seq ∷ [])

numbered-header :
    (seq : ℕ) (chunk rest : Bytes)
    → numbered seq chunk ++ rest ≡ header_of seq (length chunk) ++ (chunk ++ rest)
unfolding numbered
numbered-header seq chunk rest = refl

len_at-header : (seq size : ℕ) → size ≤ max_payload_len → len_at 0 (header_of seq size) ≡ size
unfolding len_at three_bytes
len_at-header seq size h =
    or_value_lem (size % 256) (size / 2 ^ 8 % 256) (size / 2 ^ 16 % 256) (omega arith) (omega arith)
    ∙ omega arith

seq-header : (seq size : ℕ) → get_or (header_of seq size) 3 0 ≡ seq
unfolding three_bytes
seq-header seq size = refl

length-header : (seq size : ℕ) → length (header_of seq size) ≡ 4
unfolding three_bytes
length-header seq size = refl

pub ne_test : (a b : ℕ) → a ≢ b → (a == b) ≡ false
ne_test a b h = ground arith

abbrev round_of : Bytes → ℕ → Round
round_of out size = if ltb size max_payload_len then done out else again out

-- One round takes one numbered packet off the stream.
plain_round_lem :
    (out chunk rest : Bytes) (c : PacketConn)
    → length chunk ≤ max_payload_len
    → c.incoming ≡ numbered c.seq chunk ++ rest
    → plain_round out c
      ≡ (ok (round_of (out ++ chunk) (length chunk)), taken c rest (next_seq c.seq))
unfolding plain_round
plain_round_lem out chunk rest c h e =
    let header = header_of c.seq (length chunk) in
    let c' = record c { incoming = chunk ++ rest; seq = next_seq c.seq } in
    rw
      (read_full_front 4 c header (chunk ++ rest) (e ∙ numbered-header c.seq chunk rest)
        (sym (length-header c.seq (length chunk))))
      (rw (
        seq-header c.seq (length chunk),
        len_at-header c.seq (length chunk) h,
        ==_refl c.seq,
        read_full_front (length chunk) c' chunk rest refl refl,
      ))

round_plain :
    (z : Zlib) (out : Bytes) (c : PacketConn) → IsPlain c → round z out c ≡ plain_round out c
unfolding round
round_plain z out c p = ground arith

pub loop_done :
    (z : Zlib) (fuel : ℕ) (out pkt : Bytes) (c c' : PacketConn)
    → round z out c ≡ (ok (done pkt), c')
    → read_loop z (suc fuel) out c ≡ (ok pkt, c')
unfolding read_loop
loop_done z fuel out pkt c c' e = rw e

pub loop_again :
    (z : Zlib) (fuel : ℕ) (out out' : Bytes) (c c' : PacketConn)
    → round z out c ≡ (ok (again out'), c')
    → read_loop z (suc fuel) out c ≡ read_loop z fuel out' c'
unfolding read_loop
loop_again z fuel out out' c c' e = rw e

pub read_packet_lem :
    (z : Zlib) (c : PacketConn)
    → read_packet z c ≡ read_loop z (suc (length c.incoming + length c.mysql_buf)) [] c
unfolding read_packet
read_packet_lem z c = refl

-- One packet of a framing, last or full, as the loop sees it.
round-numbered :
    (z : Zlib) (out chunk rest : Bytes) (c : PacketConn) (wire : Bytes) (seq : ℕ)
    → IsPlain c
    → length chunk ≤ max_payload_len
    → c.seq ≡ seq
    → c.incoming ≡ wire ++ rest
    → wire ≡ numbered seq chunk
    → round z out c ≡ (ok (round_of (out ++ chunk) (length chunk)), taken c rest (next_seq c.seq))
round-numbered z out chunk rest c wire seq p h s e w =
    round_plain z out c p
    ∙ plain_round_lem out chunk rest c h
        (e ∙ ap (λ (t : Bytes). t ++ rest) (w ∙ ap (λ (t : ℕ). numbered t chunk) (sym s)))

length-numbered : (seq : ℕ) (chunk : Bytes) → length (numbered seq chunk) ≡ 4 + length chunk
unfolding numbered three_bytes
length-numbered seq chunk = omega arith

pub read_loop-Framing :
    (z : Zlib) (fuel : ℕ) {seq : ℕ} {payload wire : Bytes} {seq' : ℕ} (out rest : Bytes)
    (c : PacketConn)
    → Framing seq payload wire seq'
    → IsPlain c
    → c.seq ≡ seq
    → c.incoming ≡ wire ++ rest
    → length c.incoming < fuel
    → read_loop z fuel out c ≡ (ok (out ++ payload), taken c rest seq')
read_loop-Framing z zero out rest c fr p s e h = absurd (omega arith)
read_loop-Framing z (suc fuel) {seq} {payload} {wire} {seq'} out rest c (last short w s') p s e h =
    loop_done z fuel out (out ++ payload) c (taken c rest (next_seq c.seq))
      (round-numbered z out payload rest c wire seq p (omega arith) s e w ∙ rw (lt→ltb _ _ short))
    ∙ rw (s' ∙ ap next_seq (sym s))
read_loop-Framing z (suc fuel) {seq} {payload} {wire} {seq'} out rest c
      (full chunk more tail size pay w fr) p s e h =
    let c' = taken c (tail ++ rest) (next_seq c.seq) in
    let e' : c.incoming ≡ numbered seq chunk ++ (tail ++ rest) =
      e ∙ ap (λ (t : Bytes). t ++ rest) w ∙ append_assoc (numbered seq chunk) tail rest in
    loop_again z fuel out (out ++ chunk) c c' (
      round-numbered z out chunk (tail ++ rest) c (numbered seq chunk) seq p (omega arith) s e' refl
      ∙ rw (ltb-false (length chunk) max_payload_len (omega arith)))
    ∙ read_loop-Framing z fuel (out ++ chunk) rest c' fr
        (record { no_ob20 = p.no_ob20; no_compression = p.no_compression }) (ap next_seq s) refl
        (omega (
          arith,
          ap length e',
          length-numbered seq chunk,
          length-append (numbered seq chunk) (tail ++ rest),
        ))
    ∙ rw (pay, append_assoc)

-- ReadPacket on a plain connection returns the payload of any framing that starts with the
-- expected sequence number, leaves what follows it unread, and expects the number after it next.
pub read_packet-Framing :
    {payload wire : Bytes} {seq' : ℕ} (z : Zlib) (rest : Bytes) (c : PacketConn)
    → Framing c.seq payload wire seq'
    → IsPlain c
    → c.incoming ≡ wire ++ rest
    → read_packet z c ≡ (ok payload, taken c rest seq')
unfolding read_packet
read_packet-Framing z rest c fr p e =
    read_loop-Framing z (suc (length c.incoming + length c.mysql_buf)) [] rest c fr p refl e
      (omega arith)

-- In the plain form, without compression and without OB 2.0 frames, a packet with another sequence
-- number than the expected one is refused with both numbers; its header has been taken off the
-- stream and the expected number stays.
pub read_packet_wrong_seq :
    (z : Zlib) (seq : ℕ) (chunk rest : Bytes) (c : PacketConn)
    → IsPlain c
    → c.incoming ≡ numbered seq chunk ++ rest
    → seq ≢ c.seq
    → read_packet z c ≡ (err (seq_error seq c.seq), record c { incoming = chunk ++ rest })
unfolding read_packet read_loop
read_packet_wrong_seq z seq chunk rest c p e ne =
    let header = header_of seq (length chunk) in
    let front =
      read_full_front 4 c header (chunk ++ rest) (e ∙ numbered-header seq chunk rest)
        (sym (length-header seq (length chunk))) in
    rw (round_plain z [] c p)
      (unfold plain_round in rw (front, seq-header seq (length chunk), ne_test seq c.seq ne))

module _ (z z' : Zlib) where
  -- What one side writes the other reads: the reader of the written bytes, whatever follows them,
  -- gets the payload, stops where they end, and has the writer's sequence number.
  pub read-write_packet :
      (payload rest : Bytes) (c r : PacketConn)
      → IsPlain c
      → c.faults ≡ []
      → IsPlain r
      → (wire : Bytes) × (seq' : ℕ) × (write_packet z payload c ≡ (ok tt, sent c wire seq'))
        × (read_packet z' (taken r (wire ++ rest) c.seq) ≡ (ok payload, taken r rest seq'))
  read-write_packet payload rest c r p f q =
      let (wire, seq', fr, e) = write_packet-Framing z payload c p f in
      (
        wire,
        seq',
        e,
        read_packet-Framing z' rest (taken r (wire ++ rest) c.seq) fr
            (record { no_ob20 = q.no_ob20; no_compression = q.no_compression }) refl,
      )
