-- ===== src/Protocol/ValueTests.antt =====
-- Tests of times, values, rows and authentication, and the witnesses of the theorems about them.
use obconnector_go.Common.{
  ℕ, zero, suc, ◌%◌, ◌<◌, ◌≡◌, refl, ap, inl, inr, Bool, true, none, some, List, [], ◌∷◌, map,
  arith, length, get_or, replicate, All, ok, err, message, if◌then◌else◌, ltb, leb, ◌==◌, ◌&&◌,
  ◌||◌,
}
use obconnector_go.Common.Bytes.{Bytes, le_bytes}
use obconnector_go.Common.Int.{pos, negsuc, neg_ℕ}
use obconnector_go.Sql.Params.{Value, nil, int64, bool, byte_slice, time}
use obconnector_go.Protocol.Zone.{Zone}
use obconnector_go.Protocol.Binary.{append_binary_time, parse_binary_time}
use obconnector_go.Protocol.Calendar.{
  Time, zero_time, in_utc, days_in_month, IsWall, later, instant_of,
}
use obconnector_go.Protocol.OracleTime.{
  oracle_timestamp_tz, oracle_time_in_location, zone_seconds, parse_oracle_time_zone,
  parse_oracle_time,
}
use obconnector_go.Protocol.OracleTime.RoundTrip.{
  wall_bytes, zone_bytes, parse_oracle_time-zone_bytes,
}
use obconnector_go.Protocol.Binary.Values.{
  get_binary_param_type, widen, parse_binary_row_in_location,
}
use obconnector_go.Protocol.Binary.Values.RoundTrip.{Sent, append_binary_param-Sent}
use obconnector_go.Protocol.Binary.Values.Rows.{column, row_packet, parse_binary_row-row_packet}
use obconnector_go.Protocol.Auth.{native_password_auth, caching_sha2_password_auth}
use obconnector_go.Protocol.Auth.Verified.{IsHash, AcceptsNative, AcceptsSha2, auth-Accepts}

abbrev leap_day : Time
leap_day = record {
  year = 2024;
  month = 2;
  day = 29;
  hour = 23;
  minute = 30;
  sec = 5;
  nsec = 123456789;
}

leap_day-IsWall : IsWall leap_day
unfolding days_in_month
leap_day-IsWall = record {
  on_day = record {
    year_from = omega arith;
    month_from = omega arith;
    month_to = omega arith;
    day_from = omega arith;
    day_to = omega arith;
  };
  hour_to = omega arith;
  minute_to = omega arith;
  sec_to = omega arith;
  nsec_to = omega arith;
}

-- Half past eleven at night, nine and a half hours behind UTC, is the next morning.
behind_utc :
    parse_oracle_time
      (wall_bytes leap_day 9 (zone_bytes (negsuc 569) [] []))
      oracle_timestamp_tz
      none
    ≡ ok (record leap_day { month = 3; day = 1; hour = 9; minute = 0 })
unfolding parse_oracle_time le_bytes
behind_utc = refl

parse_oracle_time-zone_bytes_example :
    parse_oracle_time
      (wall_bytes leap_day 9 (zone_bytes (negsuc 569) (85 ∷ []) []))
      oracle_timestamp_tz
      none
    ≡ ok (instant_of (zone_seconds (negsuc 569)) leap_day)
parse_oracle_time-zone_bytes_example =
    parse_oracle_time-zone_bytes leap_day 9 (negsuc 569) (85 ∷ []) [] none leap_day-IsWall
      (omega arith) (omega arith) (record { east = omega arith; west = omega arith })

abbrev zoned : Bytes
zoned = 20 ∷ 24 ∷ 2 ∷ 29 ∷ 23 ∷ 30 ∷ 5 ∷ 21 ∷ 205 ∷ 91 ∷ 7 ∷ 9 ∷ 247 ∷ 226 ∷ 0 ∷ 0 ∷ []

zoned_read :
    parse_oracle_time zoned oracle_timestamp_tz none
    ≡ ok (record leap_day { month = 3; day = 1; hour = 9; minute = 0 })
unfolding parse_oracle_time
zoned_read = refl

zoned_zone : parse_oracle_time_zone zoned ≡ ok (negsuc 569)
unfolding parse_oracle_time_zone
zoned_zone = refl

-- New York in 2024, between March and December: five hours behind UTC before seven o'clock on March 10 and after
-- six o'clock on November 3, and four hours between. time.Date takes the first of two instants, and
-- of a time in the gap the one that the offset before the gap gives.
abbrev is_summer : Time → Bool
is_summer t =
    (ltb 3 t.month || (t.month == 3 && (ltb 10 t.day || (t.day == 10 && leb 7 t.hour))))
    && (ltb t.month 11 || (t.month == 11 && (ltb t.day 3 || (t.day == 3 && ltb t.hour 6))))

abbrev spring : Time
spring = record { year = 2024; month = 3; day = 10; hour = 7; minute = 0; sec = 0; nsec = 0 }

abbrev autumn : Time
autumn = record spring { month = 11; day = 3; hour = 6 }

abbrev new_york : Zone
new_york = record {
  offset_at = λ t. if is_summer t then neg_ℕ 14400 else neg_ℕ 18000;
  date = λ w. if is_summer (later 14400 w) then later 14400 w else later 18000 w;
  bounds = λ t.
      if is_summer t
      then (some spring, some autumn)
      else if ltb t.month 6
      then (none, some spring)
      else (some autumn, none);
}

abbrev local : ℕ → ℕ → ℕ → Time
local month day hour = record spring { month = month; day = day; hour = hour; minute = 30 }

summer_noon : oracle_time_in_location (local 7 4 12) new_york ≡ ok (local 7 4 16)
unfolding oracle_time_in_location
summer_noon = refl

repeated_hour :
    oracle_time_in_location (local 11 3 1) new_york
    ≡ err (message "oceanbase: Oracle local timestamp is ambiguous in %s")
unfolding oracle_time_in_location
repeated_hour = refl

missing_hour :
    oracle_time_in_location (local 3 10 2) new_york
    ≡ err (message "oceanbase: Oracle local timestamp does not exist in %s")
unfolding oracle_time_in_location
missing_hour = refl

-- Half past noon on the fourth of July, with the session in New York.
abbrev july : Bytes
july = 20 ∷ 24 ∷ 7 ∷ 4 ∷ 12 ∷ 30 ∷ 0 ∷ 0 ∷ 0 ∷ 0 ∷ 0 ∷ 0 ∷ []

-- The first instant, shown an hour ahead of UTC, and a time that is eight hours ahead.
first_shown :
    append_binary_time [] (record { wall = record zero_time { hour = 1 }; ahead = pos 3600 })
    ≡ 0 ∷ []
unfolding append_binary_time
first_shown = refl

moved :
    parse_binary_time (append_binary_time [] (record { wall = local 7 4 12; ahead = pos 28800 }))
    ≡ ok (in_utc (local 7 4 12), 8)
unfolding append_binary_time parse_binary_time
moved = refl

-- 1.5 and the smallest subnormal number.
widened : (widen 0x3fc00000 ≡ 0x3ff8000000000000) × (widen 1 ≡ 0x36a0000000000000)
unfolding widen
widened = (refl, refl)

append_binary_param-Sent_example : Sent none (time (record { wall = leap_day; ahead = pos 28800 }))
append_binary_param-Sent_example =
    append_binary_param-Sent none (time (record { wall = leap_day; ahead = pos 28800 })) (record {
      year_fits = omega arith;
      month_fits = omega arith;
      day_fits = omega arith;
      hour_fits = omega arith;
      minute_fits = omega arith;
      sec_fits = omega arith;
      nsec_fits = omega arith;
    })

abbrev a_row : List Value
a_row = int64 (pos 7) ∷ nil ∷ byte_slice (104 ∷ 105 ∷ []) ∷ bool true ∷ nil ∷ []

parse_binary_row-row_packet_example :
    parse_binary_row_in_location
      (row_packet a_row)
      (length a_row)
      (map get_binary_param_type a_row)
      none
    ≡ ok (map column a_row)
parse_binary_row-row_packet_example =
    parse_binary_row-row_packet none a_row
      (inr (omega arith, omega arith), (inl refl, (inr (omega arith), (inr tt, (inl refl, tt)))))

-- A stand-in for a hash function: the first byte, over and over.
abbrev repeated : ℕ → Bytes → Bytes
repeated n bs = replicate n (get_or bs 0 0 % 256)

replicate-length : (n b : ℕ) → length (replicate n b) ≡ n
replicate-length zero b = refl
replicate-length (suc n) b = ap suc (replicate-length n b)

replicate-bytes : (n b : ℕ) → b < 256 → All (λ (x : ℕ). x < 256) (replicate n b)
replicate-bytes zero b h = tt
replicate-bytes (suc n) b h = (h, replicate-bytes n b h)

repeated-IsHash : (n : ℕ) → IsHash n (repeated n)
repeated-IsHash n = record {
  width = λ bs. replicate-length n (get_or bs 0 0 % 256);
  bytes = λ bs. replicate-bytes n (get_or bs 0 0 % 256) (omega arith);
}

abbrev secret : Bytes
secret = 115 ∷ 51 ∷ []

auth-Accepts_example :
    AcceptsNative
      (repeated 20)
      (repeated 32)
      (repeated 20 (repeated 20 secret))
      (9 ∷ [])
      (native_password_auth (repeated 20) (repeated 32) secret (9 ∷ []))
    × AcceptsSha2
        (repeated 20)
        (repeated 32)
        (repeated 32 (repeated 32 secret))
        (9 ∷ [])
        (caching_sha2_password_auth (repeated 20) (repeated 32) secret (9 ∷ []))
auth-Accepts_example =
    auth-Accepts (repeated 20) (repeated 32) secret (9 ∷ []) (repeated-IsHash 20)
      (repeated-IsHash 32) (omega arith)
