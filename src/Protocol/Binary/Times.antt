-- ===== src/Protocol/Binary/Times.antt =====
-- A time that was appended is read back to the microsecond.
use obconnector_go.Common.{
  ℕ, ◌+◌, ◌*◌, ◌/◌, ◌%◌, ◌^◌, ◌≤◌, ◌<◌, ◌≡◌, ap, ◌∙◌, inl, inr, true, [], ◌∷◌, ◌++◌, arith, ◌==◌,
  if◌then◌else◌, refl, ==_iff, Bool-cases, length, ok,
}
use obconnector_go.Common.Bytes.{Bytes, le_bytes, le_value, le_value-le_bytes}
use obconnector_go.Protocol.Calendar.{Time, zero_time, Moment, in_utc}
use obconnector_go.Protocol.Binary.{
  no_clock, is_zero, date_bytes, clock_bytes, append_binary_time, time_fields, parse_binary_time,
}

-- The ranges of the fields that a time.Time of a year below 65536 has.
pub record IsTime (t : Time) : Type 0 where
  pub year_fits : t.year < 65536
  pub month_fits : t.month < 256
  pub day_fits : t.day < 256
  pub hour_fits : t.hour < 256
  pub minute_fits : t.minute < 256
  pub sec_fits : t.sec < 256
  pub nsec_fits : t.nsec < 1000000000

-- The time without the nanoseconds below a microsecond.
abbrev pub to_micros : Time → Time
to_micros t = record t { nsec = t.nsec / 1000 * 1000 }

-- Where enough bytes follow the length byte, its fields are read.
parse-fields :
    (n : ℕ) (bytes : Bytes)
    → 4 ≤ n
    → n ≤ length bytes
    → parse_binary_time (n ∷ bytes) ≡ ok (in_utc (time_fields n (n ∷ bytes)), n + 1)
unfolding parse_binary_time
parse-fields n bytes h l = ground arith

year_read : (y : ℕ) → y < 65536 → le_value (le_bytes 2 (y % 2 ^ 16)) ≡ y
year_read y h = le_value-le_bytes 2 (y % 2 ^ 16) (omega arith) ∙ omega arith

micros_read :
    (n : ℕ) → n < 1000000000 → le_value (le_bytes 4 (n / 1000 % 2 ^ 32)) * 1000 ≡ n / 1000 * 1000
micros_read n h = omega (arith, le_value-le_bytes 4 (n / 1000 % 2 ^ 32) (omega arith))

-- Times with the same fields.
pub same_time :
    (t u : Time)
    → (t.year ≡ u.year)
      × (t.month ≡ u.month)
      × (t.day ≡ u.day)
      × (t.hour ≡ u.hour)
      × (t.minute ≡ u.minute)
      × (t.sec ≡ u.sec)
      × (t.nsec ≡ u.nsec)
    → t ≡ u
same_time t u h = ground arith

short-fields :
    (t : Time) (rest : Bytes)
    → IsTime t
    → t.hour ≡ 0
    → t.minute ≡ 0
    → t.sec ≡ 0
    → t.nsec ≡ 0
    → time_fields 4 (4 ∷ date_bytes t ++ rest) ≡ to_micros t
unfolding time_fields le_bytes le_value
short-fields t rest h h0 m0 s0 n0 = same_time _ (to_micros t) (ground arith)

clock-fields :
    (t : Time) (rest : Bytes)
    → IsTime t
    → t.nsec ≡ 0
    → time_fields 7 (7 ∷ date_bytes t ++ (clock_bytes t ++ rest)) ≡ to_micros t
unfolding time_fields le_bytes le_value
clock-fields t rest h n0 = same_time _ (to_micros t) (ground arith)

long-fields :
    (t : Time) (rest : Bytes)
    → IsTime t
    → time_fields 11
        (11 ∷ date_bytes t ++ (clock_bytes t ++ (le_bytes 4 (t.nsec / 1000 % 2 ^ 32) ++ rest)))
      ≡ to_micros t
unfolding time_fields le_bytes le_value
long-fields t rest h = same_time _ (to_micros t) (ground arith)

-- What arrives: the first instant, or the fields without the nanoseconds below a microsecond, in UTC.
abbrev pub read_back : Moment → Moment
read_back t = in_utc (if is_zero t then zero_time else to_micros t.wall)

-- What is to be shown of the bytes of a time.
abbrev ReadBack : Time → Bytes → Bytes → Type 0
ReadBack t bytes rest = parse_binary_time (bytes ++ rest) ≡ ok (in_utc (to_micros t), length bytes)

long-ReadBack :
    (t : Time) (rest : Bytes)
    → IsTime t
    → ReadBack t (11 ∷ date_bytes t ++ (clock_bytes t ++ le_bytes 4 (t.nsec / 1000 % 2 ^ 32))) rest
unfolding le_bytes
long-ReadBack t rest h =
    parse-fields 11
      (date_bytes t ++ (clock_bytes t ++ (le_bytes 4 (t.nsec / 1000 % 2 ^ 32) ++ rest)))
      (omega arith) (omega arith)
    ∙ ap (λ (x : Time). ok (in_utc x, 12)) (long-fields t rest h)

clock-ReadBack :
    (t : Time) (rest : Bytes)
    → IsTime t
    → t.nsec ≡ 0
    → ReadBack t (7 ∷ date_bytes t ++ clock_bytes t) rest
unfolding le_bytes
clock-ReadBack t rest h n0 =
    parse-fields 7 (date_bytes t ++ (clock_bytes t ++ rest)) (omega arith) (omega arith)
    ∙ ap (λ (x : Time). ok (in_utc x, 8)) (clock-fields t rest h n0)

short-ReadBack :
    (t : Time) (rest : Bytes)
    → IsTime t
    → t.nsec ≡ 0
    → no_clock t ≡ true
    → ReadBack t (4 ∷ date_bytes t) rest
unfolding le_bytes
short-ReadBack t rest h n0 c =
    parse-fields 4 (date_bytes t ++ rest) (omega arith) (omega arith)
    ∙ ap (λ (x : Time). ok (in_utc x, 5))
        (short-fields t rest h (ground arith) (ground arith) (ground arith) n0)

zero-ReadBack : (rest : Bytes) → parse_binary_time (0 ∷ rest) ≡ ok (in_utc zero_time, 1)
unfolding parse_binary_time
zero-ReadBack rest = refl

-- AppendBinaryTime and ParseBinaryTime agree on the fields: for a time in any location whose year there fits
-- sixteen bits, and whatever follows, exactly the bytes that AppendBinaryTime writes are consumed.
-- The zero instant reads back as the zero time; any other time as the time in UTC with the date
-- and the clock of its own location, cut to microseconds, which is the same instant only where the location
-- is UTC.
pub parse-append_binary_time :
    (t : Moment) (rest : Bytes)
    → IsTime t.wall
    → parse_binary_time (append_binary_time [] t ++ rest)
      ≡ ok (read_back t, length (append_binary_time [] t))
unfolding append_binary_time le_bytes
parse-append_binary_time t rest h = elim (Bool-cases (is_zero t)) [
  | inl e ↦ rw e (zero-ReadBack rest)
  | inr e ↦ elim (Bool-cases (t.wall.nsec == 0)) [
    | inr f ↦ rw (e, f) (long-ReadBack t.wall rest h)
    | inl f ↦ elim (Bool-cases (no_clock t.wall)) [
      | inl g ↦ rw (e, f, g) (short-ReadBack t.wall rest h ((==_iff _ _).0 f) g)
      | inr g ↦ rw (e, f, g) (clock-ReadBack t.wall rest h ((==_iff _ _).0 f))
    ]
  ]
]
