-- ===== src/Protocol/Packet/Framing/Written.antt =====
-- WritePacket in the plain form writes a framing of its payload.
use obconnector_go.Common.{
  ℕ, zero, suc, ◌≤◌, ◌<◌, min, ◌≡◌, refl, sym, ap, ◌∙◌, inl, inr, true, false, [], ◌∷◌, ◌++◌,
  append_assoc, arith, ltb, ◌==◌, if◌then◌else◌, ltb→lt, ltb-false→le, ==_iff, Bool-cases, length,
  take, drop, length-take, length-drop, take-append-drop, take_all, Outcome, ok,
}
use obconnector_go.Common.Bytes.{Bytes}
use obconnector_go.Protocol.Packet.Conn.{PacketConn, Zlib, write, max_payload_len}
use obconnector_go.Protocol.Packet.Write.{
  chunk_limit, mysql_packet, payload_buf, write_chunk, write_empty_continuation, write_loop,
  write_packet,
}
use obconnector_go.Protocol.Packet.Framing.{numbered, next_seq, Framing, last, full}

-- The connection after `wire` has been written to it.
abbrev pub sent : PacketConn → Bytes → ℕ → PacketConn
sent c wire seq = record c { outgoing = c.outgoing ++ wire; seq = seq }

sent_twice :
    (c : PacketConn) (w w' : Bytes) (s s' : ℕ) → sent (sent c w s) w' s' ≡ sent c (w ++ w') s'
sent_twice c w w' s s' = rw append_assoc

nil_of_length : (xs : Bytes) → length xs ≡ 0 → xs ≡ []
nil_of_length [] h = refl
nil_of_length (x ∷ xs) h = absurd (omega arith)

abbrev ok_unit : PacketConn → Outcome (Unit {0}) × PacketConn
ok_unit c = (ok tt, c)

pub record IsPlain (c : PacketConn) : Type 0 where
  pub no_ob20 : c.ob20 ≡ false
  pub no_compression : c.compressed ≡ false

module _ (z : Zlib) where
  plain_chunk :
      (chunk : Bytes) (c : PacketConn)
      → IsPlain c
      → c.faults ≡ []
      → write_chunk z chunk c ≡ (ok tt, sent c (numbered c.seq chunk) (next_seq c.seq))
  unfolding write_chunk payload_buf mysql_packet numbered write
  plain_chunk chunk c p f = ground (arith)

  plain_continuation :
      (c : PacketConn)
      → IsPlain c
      → c.faults ≡ []
      → write_empty_continuation c ≡ (ok tt, sent c (numbered c.seq []) (next_seq c.seq))
  unfolding write_empty_continuation mysql_packet numbered write
  plain_continuation c p f = ground arith

  -- A round that cuts off less than a full packet is the last one.
  loop_last :
      (fuel : ℕ) (payload : Bytes) (c : PacketConn)
      → IsPlain c
      → c.faults ≡ []
      → length payload < max_payload_len
      → write_loop z (suc fuel) payload c
        ≡ (ok tt, sent c (numbered c.seq payload) (next_seq c.seq))
  unfolding write_loop
  loop_last fuel payload c p f h =
      let short : min (length payload) (chunk_limit c) ≡ length payload = ground arith in
      let test : ltb (length payload) (chunk_limit c) ≡ true = ground arith in
      rw (short, take_all (length payload) payload (omega arith), plain_chunk payload c p f, test)

  loop_full :
      (fuel : ℕ) (payload : Bytes) (c : PacketConn)
      → IsPlain c
      → c.faults ≡ []
      → max_payload_len ≤ length payload
      → write_loop z (suc fuel) payload c ≡ (
          let c' = sent c (numbered c.seq (take max_payload_len payload)) (next_seq c.seq) in
          if length (drop max_payload_len payload) == 0
          then write_empty_continuation c'
          else write_loop z fuel (drop max_payload_len payload) c')
  unfolding write_loop
  loop_full fuel payload c p f h =
      let cut : min (length payload) (chunk_limit c) ≡ max_payload_len = ground arith in
      let test : ltb max_payload_len (chunk_limit c) ≡ false = ground arith in
      rw (cut, plain_chunk (take max_payload_len payload) c p f, test)

  write_loop-Framing :
      (fuel : ℕ) (payload : Bytes) (c : PacketConn)
      → IsPlain c
      → c.faults ≡ []
      → length payload < fuel
      → (wire : Bytes) × (seq' : ℕ) × Framing c.seq payload wire seq'
        × (write_loop z fuel payload c ≡ (ok tt, sent c wire seq'))
  write_loop-Framing zero payload c p f h = absurd (omega arith)
  write_loop-Framing (suc fuel) payload c p f h =
      elim (Bool-cases (ltb (length payload) max_payload_len)) [
        | inl short ↦
            let l = ltb→lt _ _ short in
            (
              numbered c.seq payload,
              next_seq c.seq,
              last l refl refl,
              loop_last fuel payload c p f l,
            )
        | inr long ↦
            let l = ltb-false→le (length payload) max_payload_len long in
            let chunk = take max_payload_len payload in
            let rest = drop max_payload_len payload in
            let c' = sent c (numbered c.seq chunk) (next_seq c.seq) in
            let size : length chunk ≡ max_payload_len =
              omega (arith, length-take max_payload_len payload) in
            let p' : IsPlain c' = record {
              no_ob20 = p.no_ob20;
              no_compression = p.no_compression;
            } in
            let joined = sym (take-append-drop max_payload_len payload) in
            elim (Bool-cases (length rest == 0)) [
              | inl empty ↦
                  let none_left = nil_of_length rest ((==_iff (length rest) 0).0 empty) in
                  let tail = numbered c'.seq [] in
                  (
                    numbered c.seq chunk ++ tail,
                    next_seq c'.seq,
                    full chunk rest tail size joined refl (
                        last (omega (arith, ap length none_left))
                          (ap (numbered c'.seq) (sym none_left)) refl),
                    loop_full fuel payload c p f l
                        ∙ rw empty (
                            plain_continuation c' p' f
                            ∙ ap (λ (s : PacketConn). ok_unit s)
                                (sent_twice c (numbered c.seq chunk) tail c'.seq
                                  (next_seq c'.seq))),
                  )
              | inr more ↦
                  let (wire, seq', fr, e) =
                    write_loop-Framing fuel rest c' p' f
                      (omega (arith, length-drop max_payload_len payload)) in
                  (
                    numbered c.seq chunk ++ wire,
                    seq',
                    full chunk rest wire size joined refl fr,
                    loop_full fuel payload c p f l
                        ∙ rw more (
                            e
                            ∙ ap (λ (s : PacketConn). ok_unit s)
                                (sent_twice c (numbered c.seq chunk) wire c'.seq seq')),
                  )
            ]
      ]

  -- WritePacket of any payload succeeds on a plain connection whose writes succeed: it appends a
  -- framing of the payload to what was sent, moves the sequence number past it, and changes
  -- nothing else.
  pub write_packet-Framing :
      (payload : Bytes) (c : PacketConn)
      → IsPlain c
      → c.faults ≡ []
      → (wire : Bytes) × (seq' : ℕ) × Framing c.seq payload wire seq'
        × (write_packet z payload c ≡ (ok tt, sent c wire seq'))
  unfolding write_packet
  write_packet-Framing payload c p f =
      write_loop-Framing (suc (length payload)) payload c p f (omega arith)
