-- ===== src/Protocol/Binary.antt =====
-- internal/protocol/binary.go: times of the binary protocol.
pub mod Times
pub mod Values
use obconnector_go.Common.{
  ℕ, zero, suc, ◌+◌, ◌-◌, ◌*◌, ◌/◌, ◌%◌, ◌^◌, ◌≤◌, ◌<◌, min, max, bit_and, bit_or, bit_xor, String,
  ◌≡◌, refl, sym, ap, ap₂, ◌∙◌, subst, ◌≢◌, ◌↔◌, ◌⊎◌, inl, inr, Bool, true, false, not, ◌&&◌, ◌||◌,
  Option, none, some, List, [], ◌∷◌, ◌++◌, map, reverse, append-nil, append_assoc, arith, ltb, leb,
  ◌==◌, if◌then◌else◌, ltb→lt, lt→ltb, ltb-false, ltb-false→le, leb→le, ==_refl, ==_iff, tests,
  Bool-cases, Option-cases, length, get_or, take, drop, replicate, All, slice, length-append,
  length-take, length-drop, take-append-drop, take_all, drop_all, take-append, drop-append,
  All-append, Error, eof, unexpected_eof, bad_conn, net_error, malformed_length_encoded_integer,
  seq_error, server_error, message, wrap, wrap_two, Outcome, ok, err, panic, stuck, ◌>>=◌, ◌>>◌,
  guard, Answers, >>=-eq-ok, Answers-bind, Answers-cases, Yields, Yields-bind, if-Yields,
}
use obconnector_go.Common.Bytes.{Bytes, le_bytes, le_value}
use obconnector_go.Protocol.Calendar.{Time, zero_time, Moment, in_utc, instant_of}

abbrev pub no_clock : Time → Bool
no_clock t = t.hour == 0 && (t.minute == 0 && t.sec == 0)

abbrev pub is_first_instant : Time → Bool
is_first_instant t = (t.year == 1 && (t.month == 1 && t.day == 1)) && (no_clock t && t.nsec == 0)

-- `t.IsZero()`: the instant is the first one, wherever the time is shown.
unfoldable pub is_zero : Moment → Bool
unfolding instant_of
is_zero t = is_first_instant (instant_of t.ahead t.wall)

abbrev pub date_bytes : Time → Bytes
date_bytes t = le_bytes 2 (t.year % 2 ^ 16) ++ (t.month % 256) ∷ (t.day % 256) ∷ []

abbrev pub clock_bytes : Time → Bytes
clock_bytes t = (t.hour % 256) ∷ (t.minute % 256) ∷ (t.sec % 256) ∷ []

-- The fields that are written are those of the time's own location.
unfoldable pub append_binary_time : Bytes → Moment → Bytes
unfolding is_zero le_bytes
append_binary_time buf t =
    let w = t.wall in
    if is_zero t
    then buf ++ 0 ∷ []
    else if not (w.nsec == 0)
    then ((buf ++ 11 ∷ date_bytes w) ++ clock_bytes w) ++ le_bytes 4 (w.nsec / 1000 % 2 ^ 32)
    else if not (no_clock w)
    then (buf ++ 7 ∷ date_bytes w) ++ clock_bytes w
    else buf ++ 4 ∷ date_bytes w

-- The fields behind the length byte n, when the bytes up to data[4] are there.
unfoldable pub time_fields : ℕ → Bytes → Time
unfolding le_value
time_fields n bytes = record {
  year = le_value (slice 1 3 bytes);
  month = get_or bytes 3 0;
  day = get_or bytes 4 0;
  hour = if leb 7 n then get_or bytes 5 0 else 0;
  minute = if leb 7 n then get_or bytes 6 0 else 0;
  sec = if leb 7 n then get_or bytes 7 0 else 0;
  nsec = if leb 11 n then le_value (slice 8 12 bytes) * 1000 else 0;
}

-- The time, in UTC, and the bytes consumed; data[3] and data[4] panic where they do not exist.
unfoldable pub parse_binary_time : Bytes → Outcome (Moment × ℕ)
unfolding time_fields
parse_binary_time [] = err unexpected_eof
parse_binary_time (n ∷ rest) =
    if n == 0
    then ok (in_utc zero_time, 1)
    else if ltb (length (n ∷ rest)) (n + 1)
    then err unexpected_eof
    else if ltb (length (n ∷ rest)) 5
    then panic
    else ok (in_utc (time_fields n (n ∷ rest)), n + 1)
