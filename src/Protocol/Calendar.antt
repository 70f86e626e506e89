-- ===== src/Protocol/Calendar.antt =====
-- The calendar of the package time that the driver counts on: lengths of months, and moving a time
-- by less than a day.
pub mod Shifts
use obconnector_go.Common.{
  ℕ, zero, suc, ◌+◌, ◌-◌, ◌*◌, ◌/◌, ◌%◌, ◌^◌, ◌≤◌, ◌<◌, min, max, bit_and, bit_or, bit_xor, String,
  ◌≡◌, refl, sym, ap, ap₂, ◌∙◌, subst, ◌≢◌, ◌↔◌, ◌⊎◌, inl, inr, Bool, true, false, not, ◌&&◌, ◌||◌,
  Option, none, some, List, [], ◌∷◌, ◌++◌, map, reverse, append-nil, append_assoc, arith, ltb, leb,
  ◌==◌, if◌then◌else◌, ltb→lt, lt→ltb, ltb-false, ltb-false→le, leb→le, ==_refl, ==_iff, tests,
  Bool-cases, Option-cases, length, get_or, take, drop, replicate, All, slice, length-append,
  length-take, length-drop, take-append-drop, take_all, drop_all, take-append, drop-append,
  All-append, Error, eof, unexpected_eof, bad_conn, net_error, malformed_length_encoded_integer,
  seq_error, server_error, message, wrap, wrap_two, Outcome, ok, err, panic, stuck, ◌>>=◌, ◌>>◌,
  guard, Answers, >>=-eq-ok, Answers-bind, Answers-cases, Yields, Yields-bind, if-Yields,
}
use obconnector_go.Common.Int.{ℤ, pos, negsuc}

-- A date and a clock: what Date, Clock and Nanosecond answer, and the arguments of time.Date; what
-- time.Date makes of fields that are out of range is not followed. As an instant, the fields in UTC.
pub record Time : Type 0 where
  pub year : ℕ
  pub month : ℕ
  pub day : ℕ
  pub hour : ℕ
  pub minute : ℕ
  pub sec : ℕ
  pub nsec : ℕ

abbrev pub zero_time : Time
zero_time = record { year = 1; month = 1; day = 1; hour = 0; minute = 0; sec = 0; nsec = 0 }

-- A time.Time: its fields in its own location, and the seconds, less than a day, that this location is
-- then ahead of UTC.
pub record Moment : Type 0 where
  pub wall : Time
  pub ahead : ℤ

abbrev pub in_utc : Time → Moment
in_utc t = record { wall = t; ahead = pos 0 }

unfoldable pub is_leap : ℕ → Bool
is_leap y = y % 4 == 0 && (not (y % 100 == 0) || y % 400 == 0)

-- daysInMonth of oracle_time.go: the day of `time.Date(year, time.Month(month)+1, 0, ...)`.
unfoldable pub days_in_month : ℕ → ℕ → ℕ
unfolding is_leap
days_in_month y m =
    if m == 2
    then (if is_leap y then 29 else 28)
    else if m == 4 || (m == 6 || (m == 9 || m == 11))
    then 30
    else 31

-- A day of the calendar.
pub record IsDay (t : Time) : Type 0 where
  pub year_from : 1 ≤ t.year
  pub month_from : 1 ≤ t.month
  pub month_to : t.month ≤ 12
  pub day_from : 1 ≤ t.day
  pub day_to : t.day ≤ days_in_month t.year t.month

-- A time of the calendar and of the clock.
pub record IsWall (t : Time) : Type 0 where
  pub on_day : IsDay t
  pub hour_to : t.hour < 24
  pub minute_to : t.minute < 60
  pub sec_to : t.sec < 60
  pub nsec_to : t.nsec < 1000000000

unfoldable pub previous_day : Time → Time
unfolding days_in_month
previous_day t =
    if ltb 1 t.day
    then record t { day = t.day - 1 }
    else if ltb 1 t.month
    then record t { month = t.month - 1; day = days_in_month t.year (t.month - 1) }
    else record t { year = t.year - 1; month = 12; day = 31 }

unfoldable pub next_day : Time → Time
unfolding days_in_month
next_day t =
    if ltb t.day (days_in_month t.year t.month)
    then record t { day = t.day + 1 }
    else if ltb t.month 12
    then record t { month = t.month + 1; day = 1 }
    else record t { year = t.year + 1; month = 1; day = 1 }

-- The second of the day.
abbrev pub clock : Time → ℕ
clock t = t.hour * 3600 + t.minute * 60 + t.sec

abbrev pub set_clock : ℕ → Time → Time
set_clock s t = record t { hour = s / 3600; minute = s / 60 % 60; sec = s % 60 }

abbrev pub day_seconds : ℕ
day_seconds = 86400

-- `t.Add(time.Duration(n) * time.Second)` where n seconds are less than a day.
unfoldable pub later : ℕ → Time → Time
unfolding next_day
later n t =
    if ltb (clock t + n) day_seconds
    then set_clock (clock t + n) t
    else set_clock (clock t + n - day_seconds) (next_day t)

-- `t.Add(-time.Duration(n) * time.Second)` where n seconds are less than a day.
unfoldable pub earlier : ℕ → Time → Time
unfolding previous_day
earlier n t =
    if leb n (clock t)
    then set_clock (clock t - n) t
    else set_clock (clock t + day_seconds - n) (previous_day t)

-- The fields that a clock ahead of UTC by an offset shows at an instant, given in UTC.
unfoldable pub shown_at : ℤ → Time → Time
unfolding later earlier
shown_at (pos n) t = later n t
shown_at (negsuc n) t = earlier (suc n) t

-- The instant, in UTC, at which that clock shows the fields.
unfoldable pub instant_of : ℤ → Time → Time
unfolding later earlier
instant_of (pos n) t = earlier n t
instant_of (negsuc n) t = later (suc n) t
