-- ===== src/Protocol/Ob20/ExtraInfo.antt =====
-- internal/protocol/ob20.go: OB20ExtraInfo, ParseOB20ExtraInfo and BuildFLTExtraInfo.
pub mod RoundTrip
use obconnector_go.Common.{
  ℕ, zero, suc, ◌+◌, ◌-◌, ◌*◌, ◌/◌, ◌%◌, ◌^◌, ◌≤◌, ◌<◌, min, max, bit_and, bit_or, bit_xor, String,
  ◌≡◌, refl, sym, ap, ap₂, ◌∙◌, subst, ◌≢◌, ◌↔◌, ◌⊎◌, inl, inr, Bool, true, false, not, ◌&&◌, ◌||◌,
  Option, none, some, List, [], ◌∷◌, ◌++◌, map, reverse, append-nil, append_assoc, arith, ltb, leb,
  ◌==◌, if◌then◌else◌, ltb→lt, lt→ltb, ltb-false, leb→le, ==_refl, ==_iff, tests, Bool-cases,
  Option-cases, length, get_or, take, drop, replicate, All, slice, length-append, length-take,
  length-drop, take-append-drop, take_all, drop_all, take-append, drop-append, All-append, Error,
  eof, unexpected_eof, bad_conn, net_error, malformed_length_encoded_integer, seq_error,
  server_error, message, wrap, wrap_two, Outcome, ok, err, panic, stuck, ◌>>=◌, ◌>>◌, guard, span,
  Answers, >>=-eq-ok, Answers-bind, Answers-cases,
}
use obconnector_go.Common.Bytes.{
  Bytes, IsByte, codes, le_bytes, le_value, or_value, three_bytes, beq_bytes, beq_bytes_refl,
  length-le_bytes, le_bytes-IsByte, le_value-le_bytes, or_value_lem,
}
use obconnector_go.Protocol.Lenenc.{put_length_encoded_string}

-- Type and Data.
pub record Ob20ExtraInfo : Type 0 where
  pub info_type : ℕ
  pub content : Bytes

-- The bytes that Encode puts at the front of its buffer, as many as it returns.
unfoldable pub encode_info : Ob20ExtraInfo → Bytes
encode_info e = le_bytes 2 e.info_type ++ (le_bytes 4 (length e.content % 2 ^ 32) ++ e.content)

abbrev pub total_len : Ob20ExtraInfo → ℕ
total_len e = 6 + length e.content

-- The loop of ParseOB20ExtraInfo on `data[pos:]`, with what it appends to `infos`.
unfoldable pub parse_infos : ℕ → Bytes → Outcome (List Ob20ExtraInfo)
parse_infos zero bytes = if ltb 0 (length bytes) then stuck else ok []
parse_infos (suc fuel) bytes =
    if not (ltb 0 (length bytes)) then ok [] else if ltb (length bytes) 6 then ok [] else (do
      typ ← span 0 2 bytes
      size ← span 2 6 bytes
      rest ← span 6 (length bytes) bytes
      guard (leb (le_value size) (length rest)) unexpected_eof
      content ← span 0 (le_value size) rest
      infos ← parse_infos fuel (drop (le_value size) rest)
      let info : Ob20ExtraInfo = record { info_type = le_value typ; content = content }
      ok (info ∷ infos))

-- Each round takes six bytes at least.
unfoldable pub parse_ob20_extra_info : Bytes → Outcome (List Ob20ExtraInfo)
unfolding parse_infos le_value
parse_ob20_extra_info bytes = parse_infos (length bytes) bytes

unfoldable pub build_flt_extra_info : Bytes → Bytes → Bytes
build_flt_extra_info trace_id span_id =
    put_length_encoded_string (put_length_encoded_string (0x01 ∷ []) trace_id ++ 0x02 ∷ []) span_id
