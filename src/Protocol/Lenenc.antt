-- ===== src/Protocol/Lenenc.antt =====
-- internal/protocol/lenenc.go: length-encoded integers and strings.
pub mod RoundTrip
use obconnector_go.Common.{
  ℕ, ◌+◌, ◌-◌, ◌/◌, ◌%◌, ◌^◌, Bool, true, false, List, [], ◌∷◌, ◌++◌, length, get_or, slice, ltb,
  ◌==◌, if◌then◌else◌, Outcome, ok, err, ◌>>=◌, unexpected_eof, malformed_length_encoded_integer,
}
use obconnector_go.Common.Bytes.{Bytes, le_bytes, le_value, or_value, three_bytes}

unfoldable pub put_length_encoded_int : Bytes → ℕ → Bytes
unfolding le_bytes three_bytes
put_length_encoded_int dst n =
    if ltb n 251
    then dst ++ (n % 256) ∷ []
    else if ltb n (2 ^ 16)
    then (dst ++ 0xfc ∷ []) ++ le_bytes 2 (n % 2 ^ 16)
    else if ltb n (2 ^ 24)
    then dst ++ 0xfd ∷ three_bytes n
    else dst ++ 0xfe ∷ le_bytes 8 n

unfoldable pub put_length_encoded_string : Bytes → Bytes → Bytes
put_length_encoded_string dst s = put_length_encoded_int dst (length s) ++ s

-- The value, the bytes consumed, and whether the value is NULL.
unfoldable pub read_length_encoded_int : Bytes → Outcome (ℕ × ℕ × Bool)
unfolding le_value or_value
read_length_encoded_int [] = err unexpected_eof
read_length_encoded_int (b ∷ rest) =
    let src = b ∷ rest in
    if b == 0xfb
    then ok (0, 1, true)
    else if b == 0xfc
    then (if ltb (length src) 3
        then err unexpected_eof
        else ok (le_value (slice 1 3 src), 3, false))
    else if b == 0xfd
    then (if ltb (length src) 4
        then err unexpected_eof
        else ok (or_value (get_or src 1 0) (get_or src 2 0) (get_or src 3 0), 4, false))
    else if b == 0xfe
    then (if ltb (length src) 9
        then err unexpected_eof
        else ok (le_value (slice 1 9 src), 9, false))
    else if b == 0xff
    then err malformed_length_encoded_integer
    else ok (b, 1, false)

-- On NULL the value is nil, which is the empty slice here.
unfoldable pub read_length_encoded_string : Bytes → Outcome (Bytes × ℕ × Bool)
read_length_encoded_string src = do
  (n, used, is_null) ← read_length_encoded_int src
  if is_null
      then ok ([], used, true)
      else if ltb (length src - used) n
      then err unexpected_eof
      else ok (slice used (used + n) src, used + n, false)
