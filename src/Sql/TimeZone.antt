-- ===== src/Sql/TimeZone.antt =====
-- session_timezone.go: offsets of the session time zone, and the statements that change it. A text
-- is a list of bytes; strings.TrimSpace, ToUpper, ToLower, EqualFold and Fields are those of ASCII.
pub mod Offsets
pub mod Halting
use obconnector_go.Common.{
  ℕ, zero, suc, ◌+◌, ◌-◌, ◌*◌, ◌/◌, ◌%◌, ◌^◌, ◌≤◌, ◌<◌, min, max, bit_and, bit_or, bit_xor, String,
  ◌≡◌, refl, sym, ap, ap₂, ◌∙◌, subst, ◌≢◌, ◌↔◌, ◌⊎◌, inl, inr, Bool, true, false, not, ◌&&◌, ◌||◌,
  Option, none, some, List, [], ◌∷◌, ◌++◌, map, reverse, append-nil, append_assoc, arith, ltb, leb,
  ◌==◌, if◌then◌else◌, ltb→lt, lt→ltb, ltb-false, ltb-false→le, leb→le, ==_refl, ==_iff, tests,
  Bool-cases, Option-cases, length, get_or, take, drop, replicate, All, slice, length-append,
  length-take, length-drop, take-append-drop, take_all, drop_all, take-append, drop-append,
  All-append, Error, eof, unexpected_eof, bad_conn, net_error, malformed_length_encoded_integer,
  seq_error, server_error, message, wrap, wrap_two, Outcome, ok, err, panic, stuck, ◌>>=◌, ◌>>◌,
  guard, Answers, >>=-eq-ok, Answers-bind, Answers-cases,
}
use obconnector_go.Common.Bytes.{Bytes, codes, beq_bytes}
use obconnector_go.Common.Int.{ℤ, pos, neg_ℕ}
use obconnector_go.Sql.Params.{next_is, Value, string, byte_slice, NamedValue}

-- The white space of ASCII that unicode.IsSpace knows.
abbrev pub is_space : ℕ → Bool
is_space ch = ch == 32 || (leb 9 ch && leb ch 13)

unfoldable pub trim_left : Bytes → Bytes
trim_left [] = []
trim_left (c ∷ cs) = if is_space c then trim_left cs else c ∷ cs

-- `strings.TrimSpace(s)`
unfoldable pub trim_space : Bytes → Bytes
unfolding trim_left
trim_space s = reverse (trim_left (reverse (trim_left s)))

abbrev pub lower : ℕ → ℕ
lower c = if leb 65 c && leb c 90 then c + 32 else c

abbrev pub upper : ℕ → ℕ
upper c = if leb 97 c && leb c 122 then c - 32 else c

-- `strings.EqualFold(a, b)`
abbrev pub equal_fold : Bytes → Bytes → Bool
equal_fold a b = beq_bytes (map lower a) (map lower b)

-- `switch strings.ToLower(strings.TrimSpace(value))`
unfoldable pub normalize_oracle_mode : Bytes → Outcome Bytes
unfolding trim_space beq_bytes
normalize_oracle_mode value =
    let v = map lower (trim_space value) in
    if beq_bytes v [] || beq_bytes v (codes "auto")
    then ok (codes "auto")
    else if beq_bytes v (codes "true") || beq_bytes v (codes "oracle")
    then ok (codes "true")
    else if beq_bytes v (codes "false") || beq_bytes v (codes "mysql")
    then ok (codes "false")
    else err (message "invalid oracle mode %q: want true, false, or auto")

abbrev pub is_digit : ℕ → Bool
is_digit c = leb 48 c && leb c 57

unfoldable pub is_two_digits : Bytes → Bool
is_two_digits value =
    length value == 2 && (is_digit (get_or value 0 0) && is_digit (get_or value 1 0))

-- `strconv.Atoi` of two digits.
abbrev pub two_digits : Bytes → ℕ
two_digits value = 10 * (get_or value 0 0 - 48) + (get_or value 1 0 - 48)

-- `%02d` of a number below 100.
abbrev pub pad_two : ℕ → Bytes
pad_two n = (48 + n / 10) ∷ (48 + n % 10) ∷ []

-- `time.UTC` and `time.FixedZone(name, offset)`, the offset in seconds.
pub data Location : Type 0 where
  utc : Location
  fixed_zone : Bytes → ℤ → Location

abbrev pub offset_of : Location → ℤ
offset_of utc = pos 0
offset_of (fixed_zone name offset) = offset

-- `strings.ContainsAny(value, chars)`
abbrev pub contains_any : Bytes → Bytes → Bool
contains_any chars [] = false
contains_any chars (c ∷ cs) = is_one_of c chars || contains_any chars cs
  where
    is_one_of : ℕ → Bytes → Bool
    is_one_of c [] = false
    is_one_of c (d ∷ ds) = c == d || is_one_of c ds

-- `strings.Contains(value, "..")`
abbrev pub contains_dots : Bytes → Bool
contains_dots [] = false
contains_dots (c ∷ cs) = (c == 46 && next_is 46 cs) || contains_dots cs

unfoldable pub outside_range : ℕ → ℕ → ℕ → Bool
outside_range sign hour minute =
    if sign == 43 then ltb 13 hour || (hour == 13 && not (minute == 0)) else ltb 12 hour

unfoldable pub zone_of : ℕ → ℕ → ℕ → Location × Bytes
zone_of sign hour minute =
    let seconds = hour * 60 * 60 + minute * 60 in
    let canonical = (sign ∷ pad_two hour) ++ 58 ∷ pad_two minute in
    (
      fixed_zone (codes "UTC" ++ canonical) (if sign == 45 then neg_ℕ seconds else pos seconds),
      canonical,
    )

-- The branch of parseSessionTimeZone for ±HH:MM.
unfoldable pub parse_offset : Bytes → Outcome (Location × Bytes)
unfolding is_two_digits outside_range zone_of
parse_offset value =
    let sign = get_or value 0 0 in
    let hour = slice 1 3 value in
    let minute = slice 4 6 value in
    guard (is_two_digits hour) (message "invalid hour in %q")
    >> (guard (is_two_digits minute) (message "invalid minute in %q")
        >> (guard (leb (two_digits minute) 59) (message "invalid minute in %q")
            >> (guard (not (outside_range sign (two_digits hour) (two_digits minute)))
                  (message "session time zone %q is outside OceanBase range")
                >> ok (zone_of sign (two_digits hour) (two_digits minute)))))

abbrev pub names_utc : Bytes → Bool
names_utc value = equal_fold value (codes "utc") || equal_fold value (codes "z")

abbrev pub looks_like_offset : Bytes → Bool
looks_like_offset value =
    length value == 6
    && ((get_or value 0 0 == 43 || get_or value 0 0 == 45) && get_or value 3 0 == 58)

-- parseSessionTimeZone after `value = strings.TrimSpace(value)`.
unfoldable pub parse_trimmed : Bytes → Outcome (Location × Bytes)
unfolding parse_offset beq_bytes
parse_trimmed value =
    if names_utc value
    then ok (utc, codes "+00:00")
    else if looks_like_offset value
    then parse_offset value
    else if beq_bytes value (codes "Local")
        || (contains_any (39 ∷ 92 ∷ 34 ∷ 59 ∷ 13 ∷ 10 ∷ []) value || contains_dots value)
    then err (message "invalid session time zone region %q")
    else err (message "expected UTC or a fixed offset")

unfoldable pub parse_session_time_zone : Bytes → Outcome (Location × Bytes)
unfolding trim_space parse_trimmed
parse_session_time_zone value = parse_trimmed (trim_space value)

-- The location, the canonical offset, and whether the session has to be configured.
unfoldable pub resolve_session_time_zone : Bytes → Bytes → Outcome (Location × Bytes × Bool)
unfolding parse_session_time_zone
resolve_session_time_zone tenant_mode value =
    if not (beq_bytes tenant_mode (codes "oracle")) then ok (utc, [], false) else do
      (location, canonical) ←
          parse_session_time_zone (if beq_bytes (trim_space value) [] then codes "UTC" else value)
      ok (location, canonical, true)

unfoldable pub session_time_zone_sql : Bytes → Bytes
session_time_zone_sql canonical =
    (codes "ALTER SESSION SET TIME_ZONE = '" ++ canonical) ++ codes "'"
