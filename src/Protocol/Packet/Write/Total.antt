-- ===== src/Protocol/Packet/Write/Total.antt =====
-- WritePacket comes to an end in each form, and leaves alone what is to be read.
use obconnector_go.Common.{
  ℕ, zero, suc, ◌+◌, ◌-◌, ◌%◌, ◌^◌, ◌≤◌, ◌<◌, min, ◌≡◌, refl, inl, inr, Bool, true, false, ◌&&◌,
  Option, none, some, List, [], ◌∷◌, arith, ltb, ◌==◌, if◌then◌else◌, ltb-false→le, Bool-cases,
  length, take, drop, length-drop, Outcome,
}
use obconnector_go.Common.State.{Method, after, ◌>>◌, Ensures, Ensures-bind}
use obconnector_go.Common.Bytes.{Bytes}
use obconnector_go.Protocol.Ob20.Header.{Ob20Header}
use obconnector_go.Protocol.Packet.Conn.{PacketConn, Zlib, write, write_with, bump_seq}
use obconnector_go.Protocol.Packet.Read.Total.{left}
use obconnector_go.Protocol.Packet.Write.{
  chunk_limit, payload_buf, header_buf, trailer_of, mysql_packet, compressed_header, write_frame,
  write_compressed, write_chunk, write_empty_continuation, write_loop, write_packet,
}

-- An answer or an error; behind an answer, n is left to read.
abbrev pub Leaves : ℕ → Outcome (Unit {0}) × PacketConn → Type 0
Leaves n r = Ensures (λ _ d. left d ≡ n) r

Leaves-bind :
    (n : ℕ) (m : Outcome (Unit {0}) × PacketConn) (f : Method PacketConn (Unit {0}))
    → Leaves n m
    → ((c : PacketConn) → left c ≡ n → Leaves n (f c))
    → Leaves n (after m.0 (λ _. f) m.1)
Leaves-bind n m f h k =
    Ensures-bind (λ _ d. left d ≡ n) (λ _ d. left d ≡ n) m (λ _. f) h λ _ c l. k c l

Leaves-choice :
    (n : ℕ) (t : Bool) (r s : Outcome (Unit {0}) × PacketConn)
    → Leaves n r
    → Leaves n s
    → Leaves n (if t then r else s)
Leaves-choice n true r s h k = h
Leaves-choice n false r s h k = k

write_with-Leaves :
    (n : ℕ) (faults : List (Option ℕ)) (p : Bytes) (c : PacketConn)
    → left c ≡ n
    → Leaves n (write_with faults p c)
unfolding write_with
write_with-Leaves n [] p c h = h
write_with-Leaves n (none ∷ fs) p c h = h
write_with-Leaves n (some k ∷ fs) p c h = tt

write-Leaves : (n : ℕ) (p : Bytes) (c : PacketConn) → left c ≡ n → Leaves n (write p c)
unfolding write
write-Leaves n p c h = write_with-Leaves n c.faults p c h

write_two-Leaves :
    (n : ℕ) (a b : Bytes) (c : PacketConn) → left c ≡ n → Leaves n ((write a >> write b) c)
write_two-Leaves n a b c h =
    Leaves-bind n (write a c) (write b) (write-Leaves n a c h) λ c1 h1. write-Leaves n b c1 h1

write_frame-Leaves :
    (n : ℕ) (header : Ob20Header) (payload : Bytes) (c : PacketConn)
    → left c ≡ n
    → Leaves n (write_frame header payload c)
unfolding write_frame
write_frame-Leaves n header payload c h =
    Leaves-bind n ((write (header_buf c header) >> write payload) c) (write (trailer_of c payload))
      (write_two-Leaves n (header_buf c header) payload c h)
      λ c1 h1. write-Leaves n (trailer_of c payload) c1 h1

write_compressed-Leaves :
    (n : ℕ) (z : Zlib) (payload : Bytes) (c : PacketConn)
    → left c ≡ n
    → Leaves n (write_compressed z payload c)
unfolding write_compressed
write_compressed-Leaves n z payload c h =
    let packed = z.deflate payload in
    Leaves-choice n (ltb (length packed) (length payload)) _ _
      (write_two-Leaves n
        (compressed_header (length packed) ((c.seq + 255) % 256) (length payload % 2 ^ 32)) packed c
        h)
      (write_two-Leaves n (compressed_header (length payload) ((c.seq + 255) % 256) 0) payload c h)

write_chunk-Leaves :
    (n : ℕ) (z : Zlib) (chunk : Bytes) (c : PacketConn)
    → left c ≡ n
    → Leaves n (write_chunk z chunk c)
unfolding write_chunk
write_chunk-Leaves n z chunk c h =
    let payload = payload_buf c chunk in
    Leaves-choice n c.ob20 _ _ (write_frame-Leaves n _ payload (bump_seq c) h) (
      Leaves-choice n (c.compressed && ltb 50 (length payload)) _ _
        (write_compressed-Leaves n z payload (bump_seq c) h)
        (write-Leaves n payload (bump_seq c) h))

continuation-Leaves : (n : ℕ) (c : PacketConn) → left c ≡ n → Leaves n (write_empty_continuation c)
unfolding write_empty_continuation
continuation-Leaves n c h =
    Leaves-choice n c.ob20 _ _ (write_frame-Leaves n _ (mysql_packet c.seq []) (bump_seq c) h)
      (write-Leaves n (mysql_packet c.seq []) (bump_seq c) h)

write_loop-Leaves :
    (n fuel : ℕ) (z : Zlib) (payload : Bytes) (c : PacketConn)
    → length payload < fuel
    → left c ≡ n
    → Leaves n (write_loop z fuel payload c)
unfolding write_loop
write_loop-Leaves n zero z payload c l h = absurd (omega arith)
write_loop-Leaves n (suc fuel) z payload c l h =
    let chunk_len = min (length payload) (chunk_limit c) in
    let rest = drop chunk_len payload in
    Ensures-bind (λ _ d. left d ≡ n) (λ _ d. left d ≡ n) (write_chunk z (take chunk_len payload) c)
      _ (write_chunk-Leaves n z (take chunk_len payload) c h)
      λ _ c1 h1. elim (Bool-cases (ltb chunk_len (chunk_limit c))) [
        | inl short ↦ rw short h1
        | inr whole ↦ rw whole (
            Leaves-choice n (length rest == 0) _ _ (continuation-Leaves n c1 h1)
              (write_loop-Leaves n fuel z rest c1 (shorter c payload l whole) h1))
      ]
  where
    shorter :
        (c : PacketConn) (payload : Bytes)
        → length payload < suc fuel
        → ltb (min (length payload) (chunk_limit c)) (chunk_limit c) ≡ false
        → length (drop (min (length payload) (chunk_limit c)) payload) < fuel
    shorter c payload l whole =
        let cut = min (length payload) (chunk_limit c) in
        let some_limit : 0 < chunk_limit c = elim (Bool-cases c.ob20) [
          | inl e ↦ rw e (omega arith)
          | inr e ↦ rw e (omega arith)
        ] in
        let rest : length (drop cut payload) ≡ length payload - cut = length-drop cut payload in
        let more : chunk_limit c ≤ cut = ltb-false→le _ _ whole in
        let less : cut ≤ length payload = omega arith in omega arith

-- WritePacket comes to an end for each payload in each form, whatever writes fail: with an answer or an error, never a
-- panic, within a round for each byte of the payload and one more; behind an answer as much is left to read as
-- before.
pub write_packet-Leaves :
    (z : Zlib) (payload : Bytes) (c : PacketConn) → Leaves (left c) (write_packet z payload c)
unfolding write_packet
write_packet-Leaves z payload c =
    write_loop-Leaves (left c) (suc (length payload)) z payload c (omega arith) refl
