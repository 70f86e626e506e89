-- ===== src/Protocol/OracleTime/Ranges.antt =====
-- What an Oracle timestamp that is accepted says.
use obconnector_go.Common.{
  ◌+◌, ◌*◌, ◌≤◌, ◌<◌, ◌≡◌, refl, subst, true, not, arith, leb, length, get_or, ok, guard-ok, >>-ok,
}
use obconnector_go.Common.Bytes.{Bytes}
use obconnector_go.Common.Int.{ℤ, pos, negsuc, nat_abs, pos_part, neg_part}
use obconnector_go.Protocol.Zone.{Zone, steady}
use obconnector_go.Protocol.Calendar.{Time}
use obconnector_go.Protocol.Calendar.{IsWall, day_seconds, instant_of}
use obconnector_go.Protocol.Calendar.Shifts.{shown_at-instant_of}
use obconnector_go.Protocol.OracleTime.{
  int8, with_sign_of, outside_offsets, check_zone_names, mixed_signs, parse_oracle_time_zone,
  zone_points, add_match, oracle_time_in_location, zone_seconds,
}
use obconnector_go.Protocol.OracleTime.Matches.{same_oracle_wall_refl}

-- On a clock that never changes each time exists, and only once.
pub oracle_time_in_location-steady :
    (wall : Time) (offset : ℤ)
    → IsWall wall
    → nat_abs offset < day_seconds
    → oracle_time_in_location wall (steady offset) ≡ ok (instant_of offset wall)
unfolding oracle_time_in_location add_match zone_points
oracle_time_in_location-steady wall offset h d =
    rw (shown_at-instant_of offset wall d h, same_oracle_wall_refl wall) refl

ok-inj : {A : Type 0} {a b : A} → ok a ≡ ok b → a ≡ b
ok-inj h = cc

-- The offsets between -12:59 and +14:00, in minutes.
pub record IsOffset (offset : ℤ) : Type 0 where
  pub east : pos_part offset ≤ 14 * 60
  pub west : neg_part offset ≤ 12 * 60 + 59

outside_offsets-IsOffset : (offset : ℤ) → not (outside_offsets offset) ≡ true → IsOffset offset
outside_offsets-IsOffset (pos n) h = ground arith
outside_offsets-IsOffset (negsuc n) h = ground arith

check_zone_names-length :
    (bytes : Bytes)
    → check_zone_names bytes ≡ ok tt
    → length bytes ≡ 16 + get_or bytes 14 0 + get_or bytes (15 + get_or bytes 14 0) 0
unfolding check_zone_names
check_zone_names-length bytes h = ground arith

-- A time zone that parseOracleTimeZone accepts lies between -12:59 and +14:00, and the payload ends
-- exactly behind the two names whose lengths it gives.
pub parse_oracle_time_zone-IsOffset :
    (bytes : Bytes) (offset : ℤ)
    → parse_oracle_time_zone bytes ≡ ok offset
    → IsOffset offset
      × (length bytes ≡ 16 + get_or bytes 14 0 + get_or bytes (15 + get_or bytes 14 0) 0)
unfolding parse_oracle_time_zone
parse_oracle_time_zone-IsOffset bytes offset h =
    let hour = int8 (get_or bytes 12 0) in
    let minute = int8 (get_or bytes 13 0) in
    let minutes = with_sign_of hour minute (nat_abs hour * 60 + nat_abs minute) in
    let (e1, h1) = guard-ok (leb 14 (length bytes)) _ _ h in
    let (e2, h2) = guard-ok (leb (nat_abs minute) 59) _ _ h1 in
    let (e3, h3) = guard-ok (not (mixed_signs hour minute)) _ _ h2 in
    let (e4, h4) = guard-ok (not (outside_offsets minutes)) _ _ h3 in
    let (e5, h5) = >>-ok (check_zone_names bytes) (ok minutes) h4 in
    (
      subst IsOffset (ok-inj h5) (outside_offsets-IsOffset minutes e4),
      check_zone_names-length bytes e5,
    )

-- The seconds of a zone.
pub seconds-near : (offset : ℤ) → IsOffset offset → nat_abs (zone_seconds offset) < day_seconds
seconds-near (pos n) h = ground arith
seconds-near (negsuc n) h = ground arith
