-- ===== src/Protocol/Binary/Values/RoundTrip.antt =====
-- A parameter that was appended is read back as a column value.
use obconnector_go.Common.{
  ℕ, ◌^◌, ◌≤◌, ◌<◌, ◌≡◌, refl, sym, ap, ◌∙◌, true, false, Option, [], ◌∷◌, ◌++◌, arith,
  if◌then◌else◌, ltb-false, length, length-append, take-append, ok,
}
use obconnector_go.Common.Bytes.{Bytes, le_bytes, le_value-le_bytes, length-le_bytes}
use obconnector_go.Common.Int.{ℤ, pos, negsuc, signed, word, pos_part, neg_part}
use obconnector_go.Protocol.Lenenc.{put_length_encoded_string}
use obconnector_go.Protocol.Lenenc.RoundTrip.{read-put_string}
use obconnector_go.Protocol.Binary.{append_binary_time}
use obconnector_go.Protocol.Binary.Times.{IsTime, read_back, parse-append_binary_time}
use obconnector_go.Protocol.Binary.Values.{
  get_binary_param_type, append_binary_param, fixed, parse_binary_value_in_location,
}
use obconnector_go.Sql.Params.{Value, nil, int64, float64, bool, byte_slice, string, time, other}
use obconnector_go.Protocol.Zone.{Zone}

-- The values of a type that the protocol sends, in the ranges of Go's types.
abbrev pub Sendable : Value → Type 0
Sendable nil = ⊥
Sendable (int64 v) = (pos_part v < 2 ^ 63) × (neg_part v ≤ 2 ^ 63)
Sendable (float64 v) = v < 2 ^ 64
Sendable (bool v) = Unit
Sendable (byte_slice s) = length s < 2 ^ 64
Sendable (string s) = length s < 2 ^ 64
Sendable (time t) = IsTime t.wall
Sendable other = ⊥

-- What the value is on the other side: texts for byte slices, numbers for Booleans, times in
-- microseconds and in UTC.
abbrev pub received : Value → Value
received (bool v) = int64 (pos (if v then 1 else 0))
received (byte_slice s) = string s
received (time t) = time (read_back t)
received v = v

signed-word : (v : ℤ) → pos_part v < 2 ^ 63 → neg_part v ≤ 2 ^ 63 → signed 64 (word 64 v) ≡ v
signed-word (pos n) h k = ground arith
signed-word (negsuc n) h k = ground arith

word-lt : (v : ℤ) → word 64 v < 2 ^ 64
word-lt (pos n) = omega arith
word-lt (negsuc n) = omega arith

fixed-read :
    (n v : ℕ) (value : ℕ → Value) (rest : Bytes)
    → v < 256 ^ n
    → fixed n value (le_bytes n v ++ rest) ≡ ok (value v, n)
fixed-read n v value rest h =
    let enough =
      ltb-false (length (le_bytes n v ++ rest)) n
        (omega (arith, length-append (le_bytes n v) rest, length-le_bytes n v)) in
    rw
      (
        enough,
        take-append n (le_bytes n v) rest (sym (length-le_bytes n v)),
        le_value-le_bytes n v h,
      )
      refl

-- What was sent: the bytes, and that they read as the value, whatever follows.
abbrev pub Sent : Option Zone → Value → Type 0
Sent location v =
    (bytes : Bytes) × (append_binary_param [] (get_binary_param_type v) v ≡ ok bytes)
    × ((rest : Bytes)
        → parse_binary_value_in_location (bytes ++ rest) (get_binary_param_type v) location
          ≡ ok (received v, length bytes))

-- A parameter that the driver sends is read back: for an int64, a float64, a string or byte slice, a Boolean or a
-- time of a year below 65536 in its own location, AppendBinaryParam answers bytes that
-- ParseBinaryValueInLocation reads under the type that GetBinaryParamType names, in any session time
-- zone and whatever follows, and consumes exactly. Numbers and strings are the same; a byte slice is then a
-- text, a Boolean 0 or 1; a time is the time in UTC with the date and the clock of its own location,
-- cut to microseconds, or the zero time for the zero instant.
pub append_binary_param-Sent : (location : Option Zone) (v : Value) → Sendable v → Sent location v
unfolding append_binary_param parse_binary_value_in_location get_binary_param_type le_bytes
append_binary_param-Sent location nil h = absurd h
append_binary_param-Sent location other h = absurd h
append_binary_param-Sent location (int64 v) (h, k) = (
  le_bytes 8 (word 64 v),
  refl,
  λ rest.
      fixed-read 8 (word 64 v) (λ w. int64 (signed 64 w)) rest (word-lt v)
      ∙ ap (λ w. ok (int64 w, 8)) (signed-word v h k),
)
append_binary_param-Sent location (float64 v) h =
    (le_bytes 8 v, refl, λ rest. fixed-read 8 v float64 rest h)
append_binary_param-Sent location (bool true) h =
    (1 ∷ [], refl, λ rest. fixed-read 1 1 (λ w. int64 (signed 8 w)) rest (omega arith))
append_binary_param-Sent location (bool false) h =
    (0 ∷ [], refl, λ rest. fixed-read 1 0 (λ w. int64 (signed 8 w)) rest (omega arith))
append_binary_param-Sent location (string s) h =
    (put_length_encoded_string [] s, refl, λ rest. rw (read-put_string s rest h) refl)
append_binary_param-Sent location (byte_slice s) h =
    (put_length_encoded_string [] s, refl, λ rest. rw (read-put_string s rest h) refl)
append_binary_param-Sent location (time t) h =
    (append_binary_time [] t, refl, λ rest. rw (parse-append_binary_time t rest h) refl)
