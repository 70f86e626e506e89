-- ===== src/Protocol/Binary/Values.antt =====
-- internal/protocol/binary.go: parameters, values and rows of the binary protocol.
pub mod RoundTrip
pub mod Rows
use obconnector_go.Common.{
  ℕ, zero, suc, ◌+◌, ◌-◌, ◌*◌, ◌/◌, ◌%◌, ◌^◌, ◌≤◌, ◌<◌, min, max, bit_and, bit_or, bit_xor, String,
  ◌≡◌, refl, sym, ap, ap₂, ◌∙◌, subst, ◌≢◌, ◌↔◌, ◌⊎◌, inl, inr, Bool, true, false, not, ◌&&◌, ◌||◌,
  Option, none, some, List, [], ◌∷◌, ◌++◌, map, reverse, append-nil, append_assoc, arith, ltb, leb,
  ◌==◌, if◌then◌else◌, ltb→lt, lt→ltb, ltb-false, ltb-false→le, leb→le, le→leb, leb-false,
  leb-false→lt, ==_refl, ==_iff, tests, Bool-cases, Option-cases, length, get_or, take, drop,
  replicate, All, slice, length-append, length-take, length-drop, take-append-drop, take_all,
  drop_all, take-append, drop-append, All-append, Error, eof, unexpected_eof, bad_conn, net_error,
  malformed_length_encoded_integer, seq_error, server_error, message, wrap, wrap_two, Outcome, ok,
  err, panic, stuck, ◌>>=◌, ◌>>◌, guard, guard-ok, >>-ok, Answers, >>=-eq-ok, Answers-bind,
  Answers-cases, Yields, Yields-bind, if-Yields,
}
use obconnector_go.Common.Bytes.{Bytes, le_bytes, le_value}
use obconnector_go.Common.Int.{signed, word}
use obconnector_go.Protocol.Lenenc.{put_length_encoded_string, read_length_encoded_string}
use obconnector_go.Protocol.Calendar.{in_utc}
use obconnector_go.Protocol.Binary.{append_binary_time, parse_binary_time}
use obconnector_go.Protocol.OracleTime.{is_oracle_time_type, parse_oracle_time}
use obconnector_go.Sql.Params.{Value, nil, int64, float64, bool, byte_slice, string, time, other}
use obconnector_go.Protocol.Zone.{Zone, utc_zone}

-- The constants of the column types that the code tells apart here.
abbrev pub type_null : ℕ
type_null = 0x06

abbrev pub type_tiny : ℕ
type_tiny = 0x01

abbrev pub type_double : ℕ
type_double = 0x05

abbrev pub type_long_long : ℕ
type_long_long = 0x08

abbrev pub type_date_time : ℕ
type_date_time = 0x0c

abbrev pub type_var_string : ℕ
type_var_string = 0xfd

abbrev pub is_one_of : ℕ → List ℕ → Bool
is_one_of typ [] = false
is_one_of typ (t ∷ ts) = typ == t || is_one_of typ ts

unfoldable pub get_binary_param_type : Value → ℕ
get_binary_param_type nil = type_null
get_binary_param_type (int64 v) = type_long_long
get_binary_param_type (float64 v) = type_double
get_binary_param_type (string s) = type_var_string
get_binary_param_type (byte_slice s) = type_var_string
get_binary_param_type (time t) = type_date_time
get_binary_param_type (bool v) = type_tiny
get_binary_param_type other = type_var_string

-- The type argument is not read.
unfoldable pub append_binary_param : Bytes → ℕ → Value → Outcome Bytes
unfolding append_binary_time put_length_encoded_string le_bytes
append_binary_param buf typ nil = ok buf
append_binary_param buf typ (int64 v) = ok (buf ++ le_bytes 8 (word 64 v))
append_binary_param buf typ (float64 v) = ok (buf ++ le_bytes 8 v)
append_binary_param buf typ (string s) = ok (put_length_encoded_string buf s)
append_binary_param buf typ (byte_slice s) = ok (put_length_encoded_string buf s)
append_binary_param buf typ (time t) = ok (append_binary_time buf t)
append_binary_param buf typ (bool v) = ok (buf ++ (if v then 1 else 0) ∷ [])
append_binary_param buf typ other =
    err (message "oceanbase: binary parameter type %T not supported")

-- The position of the highest bit of a number below 2 ^ fuel.
unfoldable pub highest_bit : ℕ → ℕ → ℕ
highest_bit zero n = 0
highest_bit (suc fuel) n = let rest = highest_bit fuel (n / 2) in if ltb n 2 then 0 else rest + 1

-- `float64(math.Float32frombits(b))`, on the bits: sign, exponent and fraction are spread out; a
-- fraction without exponent is normalized.
unfoldable pub widen : ℕ → ℕ
unfolding highest_bit
widen b =
    let sign = b / 2 ^ 31 * 2 ^ 63 in
    let exponent = b / 2 ^ 23 % 2 ^ 8 in
    let fraction = b % 2 ^ 23 in
    if exponent == 255
    then sign + 2047 * 2 ^ 52 + fraction * 2 ^ 29
    else if not (exponent == 0)
    then sign + (exponent + 896) * 2 ^ 52 + fraction * 2 ^ 29
    else if fraction == 0
    then sign
    else let k = highest_bit 23 fraction in
      sign + (k + 874) * 2 ^ 52 + (fraction - 2 ^ k) * 2 ^ (52 - k)

-- `n` bytes of an integer or of a floating-point number.
abbrev pub fixed : ℕ → (ℕ → Value) → Bytes → Outcome (Value × ℕ)
fixed n value bytes =
    if ltb (length bytes) n then err unexpected_eof else ok (value (le_value (take n bytes)), n)

abbrev pub text_of : Bytes → Outcome (Value × ℕ)
text_of bytes = do (s, used, _) ← read_length_encoded_string bytes; ok (string s, used)

abbrev pub oracle_of : Bytes → ℕ → Option Zone → Outcome (Value × ℕ)
oracle_of bytes typ session_location = do
  (s, used, _) ← read_length_encoded_string bytes
  t ← parse_oracle_time s typ session_location
  ok (time (in_utc t), used)

-- The types whose values are length-encoded texts: decimals, character strings, blobs, and the
-- RAW, INTERVAL, NUMBER, NVARCHAR2, NCHAR, ROWID, BLOB and CLOB of Oracle.
abbrev pub text_types : List ℕ
text_types =
    0x00 ∷ 0xf6 ∷ 0x0f ∷ type_var_string ∷ 0xfe ∷ 0xfc ∷ 0xf9 ∷ 0xfa ∷ 0xfb ∷ 0xcb ∷ 0xcc ∷ 0xcd
    ∷ 0xce ∷ 0xcf ∷ 0xd0 ∷ 0xd1 ∷ 0xd2 ∷ 0xd3 ∷ []

-- The value and the bytes consumed.
unfoldable pub parse_binary_value_in_location : Bytes → ℕ → Option Zone → Outcome (Value × ℕ)
unfolding le_value parse_binary_time read_length_encoded_string parse_oracle_time widen
parse_binary_value_in_location bytes typ session_location =
    if typ == type_tiny
    then fixed 1 (λ v. int64 (signed 8 v)) bytes
    else if is_one_of typ (0x02 ∷ 0x0d ∷ [])
    then fixed 2 (λ v. int64 (signed 16 v)) bytes
    else if is_one_of typ (0x03 ∷ 0x09 ∷ [])
    then fixed 4 (λ v. int64 (signed 32 v)) bytes
    else if typ == type_long_long
    then fixed 8 (λ v. int64 (signed 64 v)) bytes
    else if typ == 0x04
    then fixed 4 (λ v. float64 (widen v)) bytes
    else if typ == type_double
    then fixed 8 float64 bytes
    else if is_one_of typ (0x0a ∷ 0x07 ∷ type_date_time ∷ [])
    then (do (t, used) ← parse_binary_time bytes; ok (time t, used))
    else if is_oracle_time_type typ
    then oracle_of bytes typ session_location
    else if is_one_of typ text_types
    then text_of bytes
    else err (message "oceanbase: unsupported binary column type %02x")

unfoldable pub parse_binary_value : Bytes → ℕ → Outcome (Value × ℕ)
unfolding parse_binary_value_in_location
parse_binary_value bytes typ = parse_binary_value_in_location bytes typ (some utc_zone)

-- `(nullBitmap[(i+2)/8] & (1 << ((i + 2) % 8))) != 0`
unfoldable pub is_null_at : Bytes → ℕ → Bool
is_null_at null_bitmap i =
    not (bit_and (get_or null_bitmap ((i + 2) / 8) 0) (2 ^ ((i + 2) % 8)) == 0)

-- The loop over `n` columns from the column i on: `types` and `rest` are types[i:] and
-- packet[pos:]. The row, and what is left of the packet.
unfoldable pub parse_binary_columns :
    Option Zone → Bytes → ℕ → ℕ → List ℕ → Bytes → Outcome (List Value × Bytes)
unfolding is_null_at parse_binary_value_in_location
parse_binary_columns session_location null_bitmap zero i types rest = ok ([], rest)
parse_binary_columns session_location null_bitmap (suc n) i types rest =
    if is_null_at null_bitmap i
    then (do
      (row, rest') ← parse_binary_columns session_location null_bitmap n (suc i) (drop 1 types) rest
      ok (nil ∷ row, rest'))
    else elim types [
      | [] ↦ panic
      | typ ∷ types' ↦ do
        (value, used) ← parse_binary_value_in_location rest typ session_location
        (row, rest') ←
            parse_binary_columns session_location null_bitmap n (suc i) types' (drop used rest)
        ok (value ∷ row, rest')
    ]

unfoldable pub parse_binary_row_in_location :
    Bytes → ℕ → List ℕ → Option Zone → Outcome (List Value)
unfolding parse_binary_columns
parse_binary_row_in_location packet column_count types session_location =
    let null_bitmap_len = (column_count + 7 + 2) / 8 in
    guard (not (length packet == 0) && get_or packet 0 0 == 0) (message "invalid binary row header")
    >> (guard (leb (1 + null_bitmap_len) (length packet)) unexpected_eof >> (do
      (row, rest) ←
          parse_binary_columns session_location (slice 1 (1 + null_bitmap_len) packet) column_count
            0 types (drop (1 + null_bitmap_len) packet)
      guard (length rest == 0) (message "oceanbase: binary row has %d trailing bytes")
      ok row))

unfoldable pub parse_binary_row : Bytes → ℕ → List ℕ → Outcome (List Value)
unfolding parse_binary_row_in_location
parse_binary_row packet column_count types =
    parse_binary_row_in_location packet column_count types (some utc_zone)
