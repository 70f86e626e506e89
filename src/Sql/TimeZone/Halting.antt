-- ===== src/Sql/TimeZone/Halting.antt =====
-- parseSessionTimeZone answers, whatever the text is.
use obconnector_go.Common.{
  Bool, true, false, not, ◌||◌, Error, Outcome, guard, ◌>>◌, Yields, if-Yields, leb, slice, get_or,
  [], ◌∷◌,
}
use obconnector_go.Common.Bytes.{Bytes, codes, beq_bytes}
use obconnector_go.Sql.TimeZone.{
  parse_session_time_zone, parse_trimmed, parse_offset, names_utc, looks_like_offset, is_two_digits,
  two_digits, outside_range, trim_space, contains_any, contains_dots,
}

guard-Yields :
    {A : Type 0} (t : Bool) (e : Error) (r : Outcome A)
    → Yields (λ _. Unit) r
    → Yields (λ _. Unit) (guard t e >> r)
guard-Yields true e r h = h
guard-Yields false e r h = tt

parse_offset-Yields : (value : Bytes) → Yields (λ _. Unit) (parse_offset value)
unfolding parse_offset
parse_offset-Yields value =
    let hour = slice 1 3 value in
    let minute = slice 4 6 value in
    guard-Yields (is_two_digits hour) _ _ (
      guard-Yields (is_two_digits minute) _ _ (
        guard-Yields (leb (two_digits minute) 59) _ _ (
          guard-Yields
            (not (outside_range (get_or value 0 0) (two_digits hour) (two_digits minute))) _ _ tt)))

trimmed-Yields : (value : Bytes) → Yields (λ _. Unit) (parse_trimmed value)
unfolding parse_trimmed
trimmed-Yields value =
    if-Yields (λ _. Unit) (names_utc value) _ _ tt
      (if-Yields (λ _. Unit) (looks_like_offset value) _ _ (parse_offset-Yields value)
        (if-Yields (λ _. Unit)
          (beq_bytes value (codes "Local")
            || (contains_any (39 ∷ 92 ∷ 34 ∷ 59 ∷ 13 ∷ 10 ∷ []) value || contains_dots value))
          _ _ tt tt))

pub parse_session_time_zone-Yields :
    (text : Bytes) → Yields (λ _. Unit) (parse_session_time_zone text)
unfolding parse_session_time_zone
parse_session_time_zone-Yields text = trimmed-Yields (trim_space text)
