-- ===== src/Protocol/Packet/Framing.antt =====
-- What the plain form of internal/protocol/packet.go promises: the MySQL framing of a payload, as
-- a relation that names neither the writer nor the reader.
pub mod Written
pub mod Reading
use obconnector_go.Common.{
  ℕ, zero, suc, ◌+◌, ◌-◌, ◌*◌, ◌/◌, ◌%◌, ◌^◌, ◌≤◌, ◌<◌, min, max, bit_and, bit_or, bit_xor, String,
  ◌≡◌, refl, sym, ap, ap₂, ◌∙◌, subst, ◌≢◌, ◌↔◌, ◌⊎◌, inl, inr, Bool, true, false, not, ◌&&◌, ◌||◌,
  Option, none, some, List, [], ◌∷◌, ◌++◌, map, reverse, append-nil, append_assoc, arith, ltb, leb,
  ◌==◌, if◌then◌else◌, ltb→lt, lt→ltb, ltb-false, ltb-false→le, leb→le, ==_refl, ==_iff, tests,
  Bool-cases, Option-cases, length, get_or, take, drop, replicate, All, slice, length-append,
  length-take, length-drop, take-append-drop, take_all, drop_all, take-append, drop-append,
  All-append, Error, eof, unexpected_eof, bad_conn, net_error, malformed_length_encoded_integer,
  seq_error, server_error, message, wrap, wrap_two, Outcome, ok, err, panic, stuck, ◌>>=◌, ◌>>◌,
  guard, Answers, >>=-eq-ok, Answers-bind, Answers-cases,
}
use obconnector_go.Common.Bytes.{
  Bytes, IsByte, codes, le_bytes, le_value, or_value, three_bytes, beq_bytes, beq_bytes_refl,
  length-le_bytes, le_bytes-IsByte, le_value-le_bytes, or_value_lem,
}
use obconnector_go.Protocol.Packet.Conn.{max_payload_len}

-- A packet of at most 2^24 - 1 bytes behind its length and its number.
unfoldable pub numbered : ℕ → Bytes → Bytes
unfolding three_bytes
numbered seq chunk = three_bytes (length chunk) ++ (seq ∷ chunk)

abbrev pub next_seq : ℕ → ℕ
next_seq seq = (seq + 1) % 256

-- `Framing seq payload wire seq'`: the packets in `wire`, numbered from `seq` up to before
-- `seq'`, carry `payload`; all but the last are full, and the last is not.
pub data Framing : ℕ → Bytes → Bytes → ℕ → Type 0 where
  last :
      {seq : ℕ} {chunk wire : Bytes} {seq' : ℕ}
      → length chunk < max_payload_len
      → wire ≡ numbered seq chunk
      → seq' ≡ next_seq seq
      → Framing seq chunk wire seq'
  full :
      {seq : ℕ} {payload wire : Bytes} {seq' : ℕ} (chunk rest more : Bytes)
      → length chunk ≡ max_payload_len
      → payload ≡ chunk ++ rest
      → wire ≡ numbered seq chunk ++ more
      → Framing (next_seq seq) rest more seq'
      → Framing seq payload wire seq'
