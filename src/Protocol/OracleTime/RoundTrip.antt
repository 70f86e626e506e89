-- ===== src/Protocol/OracleTime/RoundTrip.antt =====
-- A timestamp with a time zone that was written is read back.
use obconnector_go.Common.{
  ℕ, zero, suc, ◌+◌, ◌-◌, ◌*◌, ◌/◌, ◌%◌, ◌≤◌, ◌≡◌, refl, sym, ap, ◌∙◌, subst, true, false, ◌||◌,
  Option, [], ◌∷◌, ◌++◌, arith, leb, ◌==◌, le→leb, length, get_or, length-append, ok,
}
use obconnector_go.Common.Bytes.{Bytes, le_bytes, le_value-le_bytes}
use obconnector_go.Common.Int.{ℤ, pos, negsuc, nat_abs, pos_part}
use obconnector_go.Protocol.Zone.{Zone, steady, utc_zone}
use obconnector_go.Protocol.Calendar.{Time}
use obconnector_go.Protocol.Binary.Times.{same_time}
use obconnector_go.Protocol.Calendar.{IsWall, instant_of}
use obconnector_go.Protocol.OracleTime.{
  oracle_timestamp_tz, oracle_timestamp_nano, is_oracle_time_type, int8, with_sign_of,
  outside_offsets, check_zone_names, mixed_signs, parse_oracle_time_zone, oracle_timestamp_year,
  oracle_time_in_location, wall_of, check_wall, zone_seconds, oracle_location, parse_oracle_time,
}
use obconnector_go.Protocol.OracleTime.Ranges.{
  IsOffset, seconds-near, oracle_time_in_location-steady,
}

-- The first twelve bytes, written down from the layout of the payload.
abbrev pub wall_bytes : Time → ℕ → Bytes → Bytes
wall_bytes t scale rest =
    (t.year / 100)
      ∷ (t.year % 100)
      ∷ t.month
      ∷ t.day
      ∷ t.hour
      ∷ t.minute
      ∷ t.sec
      ∷ le_bytes 4 t.nsec
    ++ scale ∷ rest

-- The bytes of an offset in minutes: the hour and the minute, each in two's complement.
abbrev pub hour_byte : ℤ → ℕ
hour_byte (pos n) = n / 60
hour_byte (negsuc n) = (256 - suc n / 60) % 256

abbrev pub minute_byte : ℤ → ℕ
minute_byte (pos n) = n % 60
minute_byte (negsuc n) = (256 - suc n % 60) % 256

abbrev pub zone_bytes : ℤ → Bytes → Bytes → Bytes
zone_bytes offset name abbreviation =
    hour_byte offset ∷ minute_byte offset ∷ length name ∷ name ++ length abbreviation ∷ abbreviation

year-read : (y : ℕ) → y ≤ 9999 → pos_part (oracle_timestamp_year (y / 100) (y % 100)) ≡ y
unfolding oracle_timestamp_year
year-read y h = ground arith

wall_of-wall_bytes :
    (t : Time) (scale : ℕ) (rest : Bytes)
    → IsWall t
    → t.year ≤ 9999
    → wall_of (wall_bytes t scale rest) ≡ t
unfolding wall_of le_bytes oracle_timestamp_year
wall_of-wall_bytes t scale rest h y =
    let nsec = le_value-le_bytes 4 t.nsec (omega arith) in
    same_time _ t (year-read t.year y, refl, refl, refl, refl, refl, nsec)

check_wall-accepts :
    (t : Time) (scale : ℕ) → IsWall t → t.year ≤ 9999 → scale ≤ 9 → check_wall t scale ≡ ok tt
unfolding check_wall
check_wall-accepts t scale h y s = ground arith

get_or-second : (xs : Bytes) (k n : ℕ) (ys : Bytes) → k ≡ length xs → get_or (xs ++ n ∷ ys) k 0 ≡ n
get_or-second [] k n ys h = rw h refl
get_or-second (x ∷ xs) zero n ys h = absurd (omega arith)
get_or-second (x ∷ xs) (suc k) n ys h = get_or-second xs k n ys (omega arith)

-- A payload that ends behind its two names.
check_zone_names-accepts :
    (bytes : Bytes) (n m : ℕ)
    → get_or bytes 14 0 ≡ n
    → get_or bytes (15 + n) 0 ≡ m
    → length bytes ≡ 16 + n + m
    → check_zone_names bytes ≡ ok tt
unfolding check_zone_names
check_zone_names-accepts bytes n m e f l = rw (e, f, l) (ground arith)

names-accepted :
    (t : Time) (scale : ℕ) (offset : ℤ) (name abbreviation : Bytes)
    → check_zone_names (wall_bytes t scale (zone_bytes offset name abbreviation)) ≡ ok tt
unfolding le_bytes
names-accepted t scale offset name abbreviation =
    check_zone_names-accepts (wall_bytes t scale (zone_bytes offset name abbreviation))
      (length name) (length abbreviation) refl
      (get_or-second
        (wall_bytes t scale (hour_byte offset ∷ minute_byte offset ∷ length name ∷ name))
        (15 + length name) (length abbreviation) abbreviation (omega arith))
      (omega (arith, length-append name (length abbreviation ∷ abbreviation)))

-- The two bytes of an offset.
abbrev offset_of_bytes : ℕ → ℕ → ℤ
offset_of_bytes h m = with_sign_of (int8 h) (int8 m) (nat_abs (int8 h) * 60 + nat_abs (int8 m))

pos-read : (n : ℕ) → n ≤ 14 * 60 → offset_of_bytes (hour_byte (pos n)) (minute_byte (pos n)) ≡ pos n
pos-read n h = ground arith

negsuc-read :
    (n : ℕ)
    → suc n ≤ 12 * 60 + 59
    → offset_of_bytes (hour_byte (negsuc n)) (minute_byte (negsuc n)) ≡ negsuc n
negsuc-read n h = ground arith

signs-agree :
    (offset : ℤ)
    → IsOffset offset
    → mixed_signs (int8 (hour_byte offset)) (int8 (minute_byte offset)) ≡ false
signs-agree (pos n) h = ground arith
signs-agree (negsuc n) h = ground arith

minute-fits : (offset : ℤ) → IsOffset offset → leb (nat_abs (int8 (minute_byte offset))) 59 ≡ true
minute-fits (pos n) h = ground arith
minute-fits (negsuc n) h = ground arith

offset-read :
    (offset : ℤ)
    → IsOffset offset
    → offset_of_bytes (hour_byte offset) (minute_byte offset) ≡ offset
offset-read (pos n) h = pos-read n h.east
offset-read (negsuc n) h = negsuc-read n h.west

inside : (offset : ℤ) → IsOffset offset → outside_offsets offset ≡ false
inside (pos n) h = ground arith
inside (negsuc n) h = ground arith

zone-accepted :
    (t : Time) (scale : ℕ) (offset : ℤ) (name abbreviation : Bytes)
    → IsOffset offset
    → parse_oracle_time_zone (wall_bytes t scale (zone_bytes offset name abbreviation)) ≡ ok offset
unfolding parse_oracle_time_zone le_bytes
zone-accepted t scale offset name abbreviation h =
    rw
      (
        names-accepted t scale offset name abbreviation,
        minute-fits offset h,
        signs-agree offset h,
        offset-read offset h,
        inside offset h,
        le→leb 14 (length (wall_bytes t scale (zone_bytes offset name abbreviation))) (omega arith),
      )
      refl

-- What is left when the checks are passed.
checked :
    (bytes : Bytes) (typ : ℕ) (session : Option Zone) (t : Time) (location : Zone)
    → is_oracle_time_type typ ≡ true
    → leb 12 (length bytes) ≡ true
    → (typ == oracle_timestamp_tz || length bytes == 12) ≡ true
    → wall_of bytes ≡ t
    → check_wall t (get_or bytes 11 0) ≡ ok tt
    → oracle_location bytes typ session ≡ ok location
    → parse_oracle_time bytes typ session ≡ oracle_time_in_location t location
unfolding parse_oracle_time
checked bytes typ session t location e1 e2 e3 e4 e5 e6 =
    let accepted = subst (λ w. check_wall w (get_or bytes 11 0) ≡ ok tt) (sym e4) e5 in
    rw (e1, e2, e3, accepted, e6) (ap (λ w. oracle_time_in_location w location) e4)

zone-found :
    (t : Time) (scale : ℕ) (offset : ℤ) (name abbreviation : Bytes) (session : Option Zone)
    → IsOffset offset
    → oracle_location
        (wall_bytes t scale (zone_bytes offset name abbreviation))
        oracle_timestamp_tz
        session
      ≡ ok (steady (zone_seconds offset))
unfolding oracle_location
zone-found t scale offset name abbreviation session o =
    rw (zone-accepted t scale offset name abbreviation o) refl

-- A timestamp with a time zone comes back: for each time of the calendar and the clock in the years
-- 1 to 9999, each scale up to 9, each offset between -12:59 and +14:00 and whatever names the zone has,
-- ParseOracleTime answers the instant at which a clock ahead of UTC by this offset shows the time.
pub parse_oracle_time-zone_bytes :
    (t : Time) (scale : ℕ) (offset : ℤ) (name abbreviation : Bytes) (session : Option Zone)
    → IsWall t
    → t.year ≤ 9999
    → scale ≤ 9
    → IsOffset offset
    → parse_oracle_time
        (wall_bytes t scale (zone_bytes offset name abbreviation))
        oracle_timestamp_tz
        session
      ≡ ok (instant_of (zone_seconds offset) t)
unfolding le_bytes
parse_oracle_time-zone_bytes t scale offset name abbreviation session h y s o =
    checked (wall_bytes t scale (zone_bytes offset name abbreviation)) oracle_timestamp_tz session t
      (steady (zone_seconds offset)) refl (le→leb _ _ (omega arith)) refl
      (wall_of-wall_bytes t scale (zone_bytes offset name abbreviation) h y)
      (check_wall-accepts t scale h y s) (zone-found t scale offset name abbreviation session o)
    ∙ oracle_time_in_location-steady t (zone_seconds offset) h (seconds-near offset o)

-- A timestamp without a zone is one of UTC.
pub parse_oracle_time-wall_bytes :
    (t : Time) (scale : ℕ) (session : Option Zone)
    → IsWall t
    → t.year ≤ 9999
    → scale ≤ 9
    → parse_oracle_time (wall_bytes t scale []) oracle_timestamp_nano session
      ≡ ok (instant_of (pos 0) t)
unfolding le_bytes oracle_location
parse_oracle_time-wall_bytes t scale session h y s =
    checked (wall_bytes t scale []) oracle_timestamp_nano session t utc_zone refl refl refl
      (wall_of-wall_bytes t scale [] h y) (check_wall-accepts t scale h y s) refl
    ∙ oracle_time_in_location-steady t (pos 0) h (omega arith)
