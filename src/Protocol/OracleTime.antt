-- ===== src/Protocol/OracleTime.antt =====
-- internal/protocol/oracle_time.go: the timestamps of the Oracle mode.
pub mod Matches
pub mod Ranges
pub mod RoundTrip
use obconnector_go.Common.{
  ℕ, zero, suc, ◌+◌, ◌-◌, ◌*◌, ◌/◌, ◌%◌, ◌^◌, ◌≤◌, ◌<◌, min, max, bit_and, bit_or, bit_xor, String,
  ◌≡◌, refl, sym, ap, ap₂, ◌∙◌, subst, ◌≢◌, ◌↔◌, ◌⊎◌, inl, inr, Bool, true, false, not, ◌&&◌, ◌||◌,
  Option, none, some, List, [], ◌∷◌, ◌++◌, map, reverse, append-nil, append_assoc, arith, ltb, leb,
  ◌==◌, if◌then◌else◌, ltb→lt, lt→ltb, ltb-false, ltb-false→le, leb→le, le→leb, leb-false,
  leb-false→lt, ==_refl, ==_iff, tests, Bool-cases, Option-cases, length, get_or, take, drop,
  replicate, All, slice, length-append, length-take, length-drop, take-append-drop, take_all,
  drop_all, take-append, drop-append, All-append, Error, eof, unexpected_eof, bad_conn, net_error,
  malformed_length_encoded_integer, seq_error, server_error, message, wrap, wrap_two, Outcome, ok,
  err, panic, stuck, ◌>>=◌, ◌>>◌, guard, Answers, >>=-eq-ok, Answers-bind, Answers-cases, Yields,
  Yields-bind, if-Yields,
}
use obconnector_go.Common.Bytes.{Bytes, le_value}
use obconnector_go.Common.Int.{ℤ, pos, neg_ℕ, nat_abs, is_neg, pos_part, neg_part, signed}
use obconnector_go.Protocol.Zone.{Zone, steady, utc_zone, shown}
use obconnector_go.Protocol.Calendar.{Time}
use obconnector_go.Protocol.Calendar.{days_in_month, earlier, shown_at, instant_of}

abbrev pub oracle_timestamp_tz : ℕ
oracle_timestamp_tz = 0xc8

abbrev pub oracle_timestamp_ltz : ℕ
oracle_timestamp_ltz = 0xc9

abbrev pub oracle_timestamp_nano : ℕ
oracle_timestamp_nano = 0xca

abbrev pub is_oracle_time_type : ℕ → Bool
is_oracle_time_type typ =
    typ == oracle_timestamp_tz || (typ == oracle_timestamp_ltz || typ == oracle_timestamp_nano)

-- `int(int8(b))`
abbrev pub int8 : ℕ → ℤ
int8 b = signed 8 b

-- `sign * value`, where the sign is -1 when one of the two is negative.
abbrev pub with_sign_of : ℤ → ℤ → ℕ → ℤ
with_sign_of a b value = if is_neg a || is_neg b then neg_ℕ value else pos value

unfoldable pub oracle_timestamp_year : ℕ → ℕ → ℤ
oracle_timestamp_year century_byte year_byte =
    let century = int8 century_byte in
    let year = int8 year_byte in with_sign_of century year (nat_abs century * 100 + nat_abs year)

-- `offsetMinutes < -(12*60+59) || offsetMinutes > 14*60`
abbrev pub outside_offsets : ℤ → Bool
outside_offsets offset =
    if is_neg offset then ltb (12 * 60 + 59) (nat_abs offset) else ltb (14 * 60) (nat_abs offset)

-- The checks of the name and of the abbreviation behind the offset.
unfoldable pub check_zone_names : Bytes → Outcome (Unit {0})
check_zone_names bytes =
    guard (leb 15 (length bytes))
      (wrap "oceanbase: truncated Oracle time zone name length: %w" unexpected_eof)
    >> (let name_end = 15 + get_or bytes 14 0 in
        guard (leb name_end (length bytes))
          (wrap "oceanbase: truncated Oracle time zone name: %w" unexpected_eof)
        >> (guard (leb (name_end + 1) (length bytes))
              (wrap "oceanbase: truncated Oracle time zone abbreviation length: %w" unexpected_eof)
            >> (let payload_end = name_end + 1 + get_or bytes name_end 0 in
                guard (leb payload_end (length bytes))
                  (wrap "oceanbase: truncated Oracle time zone abbreviation: %w" unexpected_eof)
                >> guard (length bytes == payload_end)
                    (message "oceanbase: Oracle time zone payload has %d trailing bytes"))))

-- `hour != 0 && minute != 0 && (hour < 0) != (minute < 0)`
abbrev pub mixed_signs : ℤ → ℤ → Bool
mixed_signs hour minute =
    not (nat_abs hour == 0)
    && (not (nat_abs minute == 0) && (if is_neg hour then not (is_neg minute) else is_neg minute))

-- The offset in minutes.
unfoldable pub parse_oracle_time_zone : Bytes → Outcome ℤ
unfolding check_zone_names
parse_oracle_time_zone bytes =
    guard (leb 14 (length bytes)) (
      wrap "oceanbase: Oracle timestamp with time zone payload has %d bytes, want at least 14: %w"
        unexpected_eof)
    >> (let hour = int8 (get_or bytes 12 0) in
        let minute = int8 (get_or bytes 13 0) in
        let offset = with_sign_of hour minute (nat_abs hour * 60 + nat_abs minute) in
        guard (leb (nat_abs minute) 59) (message "oceanbase: invalid Oracle time zone minute %d")
        >> (guard (not (mixed_signs hour minute))
              (message "oceanbase: Oracle time zone hour %d and minute %d have mixed signs")
            >> (guard (not (outside_offsets offset))
                  (message "oceanbase: invalid Oracle time zone offset %d minutes")
                >> (check_zone_names bytes >> ok offset))))

unfoldable pub same_oracle_wall : Time → Time → Bool
same_oracle_wall got want =
    got.year == want.year
    && (got.month == want.month
        && (got.day == want.day
            && (got.hour == want.hour
                && (got.minute == want.minute && (got.sec == want.sec && got.nsec == want.nsec)))))

-- `t.Add(-time.Nanosecond)`
unfoldable pub nanosecond_before : Time → Time
unfolding earlier
nanosecond_before t =
    if ltb 0 t.nsec
    then record t { nsec = t.nsec - 1 }
    else record (earlier 1 t) { nsec = 999999999 }

-- The points on both sides of a bound.
abbrev pub around : Option Time → List Time
around none = []
around (some t) = nanosecond_before t ∷ t ∷ []

unfoldable pub zone_points : Zone → Time → List Time
unfolding nanosecond_before
zone_points location candidate =
    let (zone_start, zone_end) = location.bounds candidate in
    candidate ∷ around zone_start ++ around zone_end

abbrev pub same_offset : ℤ → ℤ → Bool
same_offset a b = pos_part a == pos_part b && neg_part a == neg_part b

abbrev pub has_offset : ℤ → List ℤ → Bool
has_offset offset [] = false
has_offset offset (o ∷ offsets) = same_offset o offset || has_offset offset offsets

-- `offsets[offset] = struct{}{}` for each point; the set is a list without repetitions, in an order that the
-- code leaves open.
abbrev pub add_offsets : Zone → List Time → List ℤ → List ℤ
add_offsets location [] offsets = offsets
add_offsets location (point ∷ points) offsets = add_offsets location points (
    if has_offset (location.offset_at point) offsets
    then offsets
    else offsets ++ location.offset_at point ∷ [])

abbrev pub zone_offsets : Zone → Time → List ℤ
zone_offsets location candidate = add_offsets location (zone_points location candidate) []

-- `match.Equal(instant)` for one of the matches.
abbrev pub is_duplicate : Time → List Time → Bool
is_duplicate instant [] = false
is_duplicate instant (found ∷ matches) =
    same_oracle_wall found instant || is_duplicate instant matches

-- The body of the loop over the offsets.
unfoldable pub add_match : Zone → Time → ℤ → List Time → List Time
unfolding same_oracle_wall shown_at instant_of
add_match location wall offset matches =
    let instant = instant_of offset wall in
    if not (same_oracle_wall (shown location instant) wall)
    then matches
    else if is_duplicate instant matches
    then matches
    else matches ++ instant ∷ []

abbrev pub all_matches : Zone → Time → List ℤ → List Time → List Time
all_matches location wall [] matches = matches
all_matches location wall (offset ∷ offsets) matches =
    all_matches location wall offsets (add_match location wall offset matches)

abbrev pub only_match : List Time → Outcome Time
only_match [] = err (message "oceanbase: Oracle local timestamp cannot be resolved in %s")
only_match (instant ∷ []) = ok instant
only_match (instant ∷ another ∷ matches) =
    err (message "oceanbase: Oracle local timestamp is ambiguous in %s")

-- The instant, in UTC, at which a clock in the location shows the fields.
unfoldable pub oracle_time_in_location : Time → Zone → Outcome Time
unfolding same_oracle_wall add_match shown_at instant_of zone_points
oracle_time_in_location wall location =
    let candidate = location.date wall in
    guard (same_oracle_wall (shown location candidate) wall)
      (message "oceanbase: Oracle local timestamp does not exist in %s")
    >> only_match (all_matches location wall (zone_offsets location candidate) [])

-- The fields of the first eleven bytes, for a year that is not negative.
unfoldable pub wall_of : Bytes → Time
unfolding oracle_timestamp_year le_value
wall_of bytes = record {
  year = pos_part (oracle_timestamp_year (get_or bytes 0 0) (get_or bytes 1 0));
  month = get_or bytes 2 0;
  day = get_or bytes 3 0;
  hour = get_or bytes 4 0;
  minute = get_or bytes 5 0;
  sec = get_or bytes 6 0;
  nsec = le_value (slice 7 11 bytes);
}

-- The checks of the fields and of the scale; a year that is not positive has no positive part.
unfoldable pub check_wall : Time → ℕ → Outcome (Unit {0})
unfolding days_in_month
check_wall wall scale =
    guard (leb 1 wall.year && leb wall.year 9999) (message "oceanbase: invalid Oracle time year %d")
    >> (guard (leb 1 wall.month && leb wall.month 12)
          (message "oceanbase: invalid Oracle time month %d")
        >> (guard (leb 1 wall.day && leb wall.day (days_in_month wall.year wall.month))
              (message "oceanbase: invalid Oracle time day %d for %04d-%02d")
            >> (guard (leb wall.hour 23 && (leb wall.minute 59 && leb wall.sec 59))
                  (message "oceanbase: invalid Oracle time clock %02d:%02d:%02d")
                >> (guard (ltb wall.nsec 1000000000)
                      (message "oceanbase: invalid Oracle time nanoseconds %d")
                    >> guard (leb scale 9) (message "oceanbase: invalid Oracle time scale %d")))))

-- `offsetMinutes*60`
abbrev pub zone_seconds : ℤ → ℤ
zone_seconds offset =
    if is_neg offset then neg_ℕ (nat_abs offset * 60) else pos (nat_abs offset * 60)

abbrev pub known_location : Option Zone → Outcome Zone
known_location none =
    err
      (message "oceanbase: session time zone is unknown for Oracle timestamp with local time zone")
known_location (some location) = ok location

-- The location of the fields: that of the payload, of the session, or UTC.
unfoldable pub oracle_location : Bytes → ℕ → Option Zone → Outcome Zone
unfolding parse_oracle_time_zone
oracle_location bytes typ session_location =
    if typ == oracle_timestamp_tz
    then (do offset ← parse_oracle_time_zone bytes; ok (steady (zone_seconds offset)))
    else if typ == oracle_timestamp_ltz
    then known_location session_location
    else ok utc_zone

unfoldable pub parse_oracle_time : Bytes → ℕ → Option Zone → Outcome Time
unfolding wall_of check_wall oracle_location oracle_time_in_location
parse_oracle_time bytes typ session_location =
    guard (is_oracle_time_type typ) (message "oceanbase: unsupported Oracle time type 0x%02x")
    >> (guard (leb 12 (length bytes))
          (wrap "oceanbase: Oracle time payload has %d bytes, want at least %d: %w" unexpected_eof)
        >> (guard (typ == oracle_timestamp_tz || length bytes == 12)
              (message "oceanbase: Oracle timestamp payload has %d bytes, want %d")
            >> (check_wall (wall_of bytes) (get_or bytes 11 0)
                >> (oracle_location bytes typ session_location
                    >>= oracle_time_in_location (wall_of bytes)))))
