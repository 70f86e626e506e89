-- ===== src/Protocol/Zone.antt =====
-- A *time.Location, by what package time answers of it.
use obconnector_go.Common.{Option, none}
use obconnector_go.Common.Int.{ℤ, pos}
use obconnector_go.Protocol.Calendar.{Time, shown_at, instant_of}
use obconnector_go.Sql.TimeZone.{Location, offset_of}

-- Instants are in UTC. `offset_at t` is the offset of `t.In(location).Zone()`, less than a day; `date` is time.Date in
-- the location; `bounds` is ZoneBounds in the location, none for a zero time.
pub record Zone : Type 0 where
  pub offset_at : Time → ℤ
  pub date : Time → Time
  pub bounds : Time → Option Time × Option Time

-- A clock that never changes.
abbrev pub steady : ℤ → Zone
steady offset = record {
  offset_at = λ t. offset;
  date = instant_of offset;
  bounds = λ t. (none, none);
}

-- The locations of a session, which are UTC and fixed zones.
abbrev pub zone_at : Location → Zone
zone_at location = steady (offset_of location)

abbrev pub utc_zone : Zone
utc_zone = steady (pos 0)

-- What a clock of the location shows at an instant: `t.In(location)`.
abbrev pub shown : Zone → Time → Time
shown location t = shown_at (location.offset_at t) t
