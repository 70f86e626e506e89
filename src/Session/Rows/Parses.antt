-- ===== src/Session/Rows/Parses.antt =====
-- Parsing a row has no loop whose fuel could end.
use obconnector_go.Common.{
  ℕ, zero, suc, ◌+◌, ◌*◌, ◌/◌, String, Bool, true, false, not, ◌&&◌, ◌||◌, Option, none, some, List,
  [], ◌∷◌, arith, ltb, leb, ◌==◌, if◌then◌else◌, length, get_or, drop, slice, Error, message,
  Outcome, ok, err, ◌>>=◌, ◌>>◌, guard, Yields, Yields-bind, if-Yields,
}
use obconnector_go.Common.Bytes.{Bytes}
use obconnector_go.Common.Int.{nat_abs, signed}
use obconnector_go.Protocol.Lenenc.{read_length_encoded_string}
use obconnector_go.Protocol.Packet.Conn.{Zlib}
use obconnector_go.Protocol.Calendar.{Time, in_utc}
use obconnector_go.Protocol.Binary.{parse_binary_time}
use obconnector_go.Protocol.Binary.Values.{
  is_one_of, type_tiny, type_long_long, type_double, type_date_time, is_null_at, fixed, text_of,
  oracle_of, text_types, widen, parse_binary_value_in_location, parse_binary_columns,
  parse_binary_row_in_location,
}
use obconnector_go.Protocol.OracleTime.{
  is_oracle_time_type, int8, with_sign_of, mixed_signs, outside_offsets, check_zone_names,
  parse_oracle_time_zone, known_location, oracle_location, check_wall, wall_of, only_match,
  oracle_time_in_location, parse_oracle_time, oracle_timestamp_tz, oracle_timestamp_ltz,
  same_oracle_wall, all_matches, zone_offsets,
}
use obconnector_go.Sql.Params.{Value, int64, float64, string, time}
use obconnector_go.Protocol.Zone.{Zone, shown}
use obconnector_go.Session.Packets.Yields.{string-Yields}
use obconnector_go.Session.TextRow.{
  text_value_in_location, parse_text_columns, parse_text_row_in_location, type_or_text,
}
use obconnector_go.Session.Rows.{Reading, parse_row}

-- The answer is not the end of fuel.
abbrev pub Parses : {A : Type 0} → Outcome A → Type 0
Parses r = Yields (λ _. Unit) r

module _ {A B : Type 0} where
  then-Parses :
      (m : Outcome A) (f : A → Outcome B) → Parses m → ((a : A) → Parses (f a)) → Parses (m >>= f)
  then-Parses m f h k = Yields-bind (λ _. Unit) (λ _. Unit) m f h λ a _. k a

module _ {A : Type 0} where
  guard-Parses :
      (t : Bool) (e : Error) (rest : Outcome A) → Parses rest → Parses (guard t e >> rest)
  guard-Parses true e rest h = h
  guard-Parses false e rest h = tt

  either-Parses : (t : Bool) (r s : Outcome A) → Parses r → Parses s → Parses (if t then r else s)
  either-Parses t r s h k = if-Yields (λ _. Unit) t r s h k

only-check : (t : Bool) (e : Error) → Parses (guard t e)
only-check true e = tt
only-check false e = tt

check_zone_names-Parses : (bytes : Bytes) → Parses (check_zone_names bytes)
unfolding check_zone_names
check_zone_names-Parses bytes = guard-Parses (leb 15 (length bytes)) _ _ (
    guard-Parses (leb (15 + get_or bytes 14 0) (length bytes)) _ _ (
      guard-Parses (leb (15 + get_or bytes 14 0 + 1) (length bytes)) _ _ (
        guard-Parses
          (leb (15 + get_or bytes 14 0 + 1 + get_or bytes (15 + get_or bytes 14 0) 0)
            (length bytes))
          _ _
          (only-check
            (length bytes == 15 + get_or bytes 14 0 + 1 + get_or bytes (15 + get_or bytes 14 0) 0)
            _))))

zone-Parses : (bytes : Bytes) → Parses (parse_oracle_time_zone bytes)
unfolding parse_oracle_time_zone
zone-Parses bytes =
    let hour = int8 (get_or bytes 12 0) in
    let minute = int8 (get_or bytes 13 0) in
    guard-Parses (leb 14 (length bytes)) _ _ (
      guard-Parses (leb (nat_abs minute) 59) _ _ (
        guard-Parses (not (mixed_signs hour minute)) _ _ (
          guard-Parses
            (not (outside_offsets (with_sign_of hour minute (nat_abs hour * 60 + nat_abs minute))))
            _ _ (then-Parses (check_zone_names bytes) _ (check_zone_names-Parses bytes) λ _. tt))))

known-Parses : (session : Option Zone) → Parses (known_location session)
known-Parses none = tt
known-Parses (some l) = tt

location-Parses :
    (bytes : Bytes) (typ : ℕ) (session : Option Zone) → Parses (oracle_location bytes typ session)
unfolding oracle_location
location-Parses bytes typ session =
    either-Parses (typ == oracle_timestamp_tz) _ _
      (then-Parses (parse_oracle_time_zone bytes) _ (zone-Parses bytes) λ _. tt)
      (either-Parses (typ == oracle_timestamp_ltz) _ _ (known-Parses session) tt)

match-Parses : (ts : List Time) → Parses (only_match ts)
match-Parses [] = tt
match-Parses (t ∷ []) = tt
match-Parses (t ∷ u ∷ ts) = tt

in_location-Parses :
    (wall : Time) (location : Zone) → Parses (oracle_time_in_location wall location)
unfolding oracle_time_in_location
in_location-Parses wall location =
    let candidate = location.date wall in
    guard-Parses (same_oracle_wall (shown location candidate) wall) _ _
      (match-Parses (all_matches location wall (zone_offsets location candidate) []))

wall-Parses : (wall : Time) (scale : ℕ) → Parses (check_wall wall scale)
unfolding check_wall
wall-Parses wall scale = ground arith

oracle-Parses :
    (bytes : Bytes) (typ : ℕ) (session : Option Zone) → Parses (parse_oracle_time bytes typ session)
unfolding parse_oracle_time
oracle-Parses bytes typ session = guard-Parses (is_oracle_time_type typ) _ _ (
    guard-Parses (leb 12 (length bytes)) _ _ (
      guard-Parses (typ == oracle_timestamp_tz || length bytes == 12) _ _ (
        then-Parses (check_wall (wall_of bytes) (get_or bytes 11 0)) _
          (wall-Parses (wall_of bytes) (get_or bytes 11 0))
          λ _.
            then-Parses (oracle_location bytes typ session) _ (location-Parses bytes typ session)
              λ l. in_location-Parses (wall_of bytes) l)))

time-Parses : (bytes : Bytes) → Parses (parse_binary_time bytes)
unfolding parse_binary_time
time-Parses [] = tt
time-Parses (n ∷ rest) = ground arith

fixed-Parses : (n : ℕ) (value : ℕ → Value) (bytes : Bytes) → Parses (fixed n value bytes)
fixed-Parses n value bytes = either-Parses (ltb (length bytes) n) _ _ tt tt

text-of-Parses : (bytes : Bytes) → Parses (text_of bytes)
text-of-Parses bytes =
    then-Parses (read_length_encoded_string bytes) (λ r. ok (string r.0, r.1)) (string-Yields bytes)
      λ _. tt

oracle-of-Parses :
    (bytes : Bytes) (typ : ℕ) (session : Option Zone) → Parses (oracle_of bytes typ session)
oracle-of-Parses bytes typ session =
    then-Parses (read_length_encoded_string bytes)
      (λ r. parse_oracle_time r.0 typ session >>= λ t. ok (time (in_utc t), r.1))
      (string-Yields bytes)
      λ r.
        then-Parses (parse_oracle_time r.0 typ session) (λ t. ok (time (in_utc t), r.1))
          (oracle-Parses r.0 typ session) λ _. tt

other-Parses :
    (bytes : Bytes) (typ : ℕ) (session : Option Zone)
    → Parses (
        if is_oracle_time_type typ
        then oracle_of bytes typ session
        else if is_one_of typ text_types
        then text_of bytes
        else err (message "oceanbase: unsupported binary column type %02x"))
other-Parses bytes typ session =
    either-Parses (is_oracle_time_type typ) _ _ (oracle-of-Parses bytes typ session)
      (either-Parses (is_one_of typ text_types) _ _ (text-of-Parses bytes) tt)

value-Parses :
    (bytes : Bytes) (typ : ℕ) (session : Option Zone)
    → Parses (parse_binary_value_in_location bytes typ session)
unfolding parse_binary_value_in_location
value-Parses bytes typ session =
    either-Parses (typ == type_tiny) _ _ (fixed-Parses 1 (λ v. int64 (signed 8 v)) bytes) (
      either-Parses (is_one_of typ (0x02 ∷ 0x0d ∷ [])) _ _
        (fixed-Parses 2 (λ v. int64 (signed 16 v)) bytes)
        (either-Parses (is_one_of typ (0x03 ∷ 0x09 ∷ [])) _ _
          (fixed-Parses 4 (λ v. int64 (signed 32 v)) bytes)
          (either-Parses (typ == type_long_long) _ _
            (fixed-Parses 8 (λ v. int64 (signed 64 v)) bytes)
            (either-Parses (typ == 0x04) _ _ (fixed-Parses 4 (λ v. float64 (widen v)) bytes) (
              either-Parses (typ == type_double) _ _ (fixed-Parses 8 float64 bytes) (
                either-Parses (is_one_of typ (0x0a ∷ 0x07 ∷ type_date_time ∷ [])) _ _
                  (then-Parses (parse_binary_time bytes) (λ r. ok (time r.0, r.1))
                    (time-Parses bytes) λ _. tt)
                  (other-Parses bytes typ session)))))))

columns-Parses :
    (session : Option Zone) (bitmap : Bytes) (n i : ℕ) (types : List ℕ) (rest : Bytes)
    → Parses (parse_binary_columns session bitmap n i types rest)
unfolding parse_binary_columns
columns-Parses session bitmap zero i types rest = tt
columns-Parses session bitmap (suc n) i [] rest =
    either-Parses (is_null_at bitmap i) _ _
      (then-Parses (parse_binary_columns session bitmap n (suc i) [] rest) _
        (columns-Parses session bitmap n (suc i) [] rest) λ _. tt)
      tt
columns-Parses session bitmap (suc n) i (typ ∷ types) rest =
    either-Parses (is_null_at bitmap i) _ _
      (then-Parses (parse_binary_columns session bitmap n (suc i) types rest) _
        (columns-Parses session bitmap n (suc i) types rest) λ _. tt)
      (then-Parses (parse_binary_value_in_location rest typ session) _
        (value-Parses rest typ session)
        λ r.
          then-Parses (parse_binary_columns session bitmap n (suc i) types (drop r.1 rest)) _
            (columns-Parses session bitmap n (suc i) types (drop r.1 rest)) λ _. tt)

binary-Parses :
    (packet : Bytes) (n : ℕ) (types : List ℕ) (session : Option Zone)
    → Parses (parse_binary_row_in_location packet n types session)
unfolding parse_binary_row_in_location
binary-Parses packet n types session =
    let width = (n + 7 + 2) / 8 in
    guard-Parses (not (length packet == 0) && get_or packet 0 0 == 0) _ _ (
      guard-Parses (leb (1 + width) (length packet)) _ _ (
        then-Parses
          (parse_binary_columns session (slice 1 (1 + width) packet) n 0 types
            (drop (1 + width) packet))
          _
          (columns-Parses session (slice 1 (1 + width) packet) n 0 types (drop (1 + width) packet))
          λ r. guard-Parses (length r.1 == 0) _ _ tt))

module _ (z : Zlib) (parse_float : Bytes → Option ℕ)
    (parse_in_location : String → Bytes → Option Time) where
  text_value-Parses :
      (raw : Bytes) (typ : ℕ) (session : Option Zone)
      → Parses (text_value_in_location parse_float parse_in_location raw typ session)
  unfolding text_value_in_location
  text_value-Parses raw typ session =
      either-Parses (is_oracle_time_type typ) _ _
        (then-Parses (parse_oracle_time raw typ session) _ (oracle-Parses raw typ session) λ _. tt)
        tt

  text_columns-Parses :
      (session : Option Zone) (n : ℕ) (types : List ℕ) (rest : Bytes)
      → Parses (parse_text_columns parse_float parse_in_location session n types rest)
  unfolding parse_text_columns
  text_columns-Parses session zero types rest = tt
  text_columns-Parses session (suc n) types [] = tt
  text_columns-Parses session (suc n) types (b ∷ bytes) =
      let ih = text_columns-Parses session n (drop 1 types) in
      either-Parses (b == 0xfb) _ _ (then-Parses _ _ (ih bytes) λ _. tt) (
        then-Parses (read_length_encoded_string (b ∷ bytes)) _ (string-Yields (b ∷ bytes)) λ r.
          then-Parses
            (text_value_in_location parse_float parse_in_location r.0
              (type_or_text parse_float parse_in_location types) session)
            _ (text_value-Parses r.0 (type_or_text parse_float parse_in_location types) session)
            λ _.
              then-Parses
                (parse_text_columns parse_float parse_in_location session n (drop 1 types)
                  (drop r.1 (b ∷ bytes)))
                _ (ih (drop r.1 (b ∷ bytes))) λ _. tt)

  text-Parses :
      (packet : Bytes) (n : ℕ) (types : List ℕ) (session : Option Zone)
      → Parses (parse_text_row_in_location parse_float parse_in_location packet n types session)
  unfolding parse_text_row_in_location
  text-Parses packet n types session =
      then-Parses (parse_text_columns parse_float parse_in_location session n types packet) _
        (text_columns-Parses session n types packet) λ r. guard-Parses (length r.1 == 0) _ _ tt

  pub parse_row-Parses :
      (s : Reading) (packet : Bytes) → Parses (parse_row z parse_float parse_in_location s packet)
  unfolding parse_row
  parse_row-Parses s packet =
      either-Parses s.binary _ _ (binary-Parses packet _ _ _) (text-Parses packet _ _ _)
