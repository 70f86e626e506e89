-- ===== src/Session/TextRow.antt =====
-- rows.go: rows of the text protocol, and what the types of the columns are called.
pub mod RoundTrip
pub mod Integers
use obconnector_go.Common.{
  ℕ, zero, suc, ◌+◌, ◌-◌, ◌*◌, ◌/◌, ◌%◌, ◌^◌, ◌≤◌, ◌<◌, min, max, bit_and, bit_or, bit_xor, String,
  ◌≡◌, refl, sym, ap, ap₂, ◌∙◌, subst, ◌≢◌, ◌↔◌, ◌⊎◌, inl, inr, Bool, true, false, not, ◌&&◌, ◌||◌,
  Option, none, some, List, [], ◌∷◌, ◌++◌, map, reverse, append-nil, append_assoc, arith, ltb, leb,
  ◌==◌, if◌then◌else◌, ltb→lt, lt→ltb, ltb-false, ltb-false→le, leb→le, le→leb, leb-false,
  leb-false→lt, ==_refl, ==_iff, tests, Bool-cases, Option-cases, length, get_or, take, drop,
  replicate, All, slice, length-append, length-take, length-drop, take-append-drop, take_all,
  drop_all, take-append, drop-append, All-append, Error, eof, unexpected_eof, bad_conn, net_error,
  malformed_length_encoded_integer, seq_error, server_error, message, wrap, wrap_two, Outcome, ok,
  err, panic, stuck, ◌>>=◌, ◌>>◌, guard, guard-ok, >>-ok, Answers, >>=-eq-ok, Answers-bind,
  Answers-cases, Yields, Yields-bind, if-Yields,
}
use obconnector_go.Common.Bytes.{Bytes, codes}
use obconnector_go.Common.Int.{ℤ, pos, neg_ℕ}
use obconnector_go.Protocol.Lenenc.{read_length_encoded_string}
use obconnector_go.Protocol.Calendar.{Time, in_utc}
use obconnector_go.Protocol.Binary.Values.{
  is_one_of, type_tiny, type_long_long, type_double, type_date_time, type_var_string,
}
use obconnector_go.Protocol.OracleTime.{is_oracle_time_type, parse_oracle_time}
use obconnector_go.Sql.Params.{
  Value, nil, int64, float64, byte_slice, string, time, upper_hex_digit,
}
use obconnector_go.Protocol.Zone.{Zone, utc_zone}
use obconnector_go.Sql.TimeZone.{is_digit}

-- The number of decimal digits after those that made `n`.
abbrev pub digits_from : ℕ → Bytes → Option ℕ
digits_from n [] = some n
digits_from n (c ∷ cs) =
    let rest = digits_from (10 * n + (c - 48)) cs in if is_digit c then rest else none

abbrev pub digits_of : Bytes → Option ℕ
digits_of [] = none
digits_of (c ∷ cs) = digits_from 0 (c ∷ cs)

abbrev pub in_range : Bool → ℕ → Option ℤ
in_range negative n =
    if ltb (if negative then 2 ^ 63 else 2 ^ 63 - 1) n
    then none
    else some (if negative then neg_ℕ n else pos n)

abbrev pub with_sign : Bool → Option ℕ → Option ℤ
with_sign negative none = none
with_sign negative (some n) = in_range negative n

-- `strconv.ParseInt(s, 10, 64)`, without its error.
unfoldable pub parse_int : Bytes → Option ℤ
parse_int [] = none
parse_int (c ∷ cs) = with_sign (c == 45) (digits_of (if c == 45 || c == 43 then cs else c ∷ cs))

-- The three layouts of a date or a time.
abbrev pub time_formats : List String
time_formats = "2006-01-02 15:04:05.999999999" ∷ "2006-01-02 15:04:05" ∷ "2006-01-02" ∷ []

-- `strconv.ParseFloat(s, 64)` and `time.ParseInLocation(f, s, time.UTC)`, without their errors, are
-- not followed into strconv and time: they are the parameters.
module _ (parse_float : Bytes → Option ℕ) (parse_in_location : String → Bytes → Option Time) where
  abbrev pub integer_or_text : Option ℤ → Bytes → Value
  integer_or_text none s = string s
  integer_or_text (some v) s = int64 v

  abbrev pub float_or_text : Option ℕ → Bytes → Value
  float_or_text none s = string s
  float_or_text (some v) s = float64 v

  abbrev pub first_time : List String → Bytes → Value
  first_time [] s = string s
  first_time (f ∷ fs) s =
      let rest = first_time fs s in
      elim (parse_in_location f s) [ none ↦ rest | some t ↦ time (in_utc t) ]

  unfoldable pub text_value : Bytes → ℕ → Value
  unfolding parse_int
  text_value raw typ =
      if is_one_of typ (type_tiny ∷ 0x02 ∷ 0x03 ∷ 0x09 ∷ type_long_long ∷ 0x0d ∷ [])
      then integer_or_text (parse_int raw) raw
      else if is_one_of typ (0x04 ∷ type_double ∷ [])
      then float_or_text (parse_float raw) raw
      else if is_one_of typ (0x0a ∷ type_date_time ∷ 0x07 ∷ [])
      then first_time time_formats raw
      else if is_one_of typ (0x10 ∷ 0xf9 ∷ 0xfa ∷ 0xfb ∷ 0xfc ∷ 0xcb ∷ 0xd2 ∷ 0xd3 ∷ [])
      then byte_slice raw
      else string raw

  unfoldable pub text_value_in_location : Bytes → ℕ → Option Zone → Outcome Value
  unfolding text_value parse_oracle_time
  text_value_in_location raw typ session_location =
      if is_oracle_time_type typ
      then (do t ← parse_oracle_time raw typ session_location; ok (time (in_utc t)))
      else ok (text_value raw typ)

  -- `types[i]`, or the type of a text where there is none; `types` is types[i:].
  abbrev pub type_or_text : List ℕ → ℕ
  type_or_text types = get_or types 0 type_var_string

  -- The loop over `n` columns: `types` and `rest` are types[i:] and packet[pos:]. The row, and what is left of the packet.
  unfoldable pub parse_text_columns :
      Option Zone → ℕ → List ℕ → Bytes → Outcome (List Value × Bytes)
  unfolding read_length_encoded_string text_value_in_location
  parse_text_columns session_location zero types rest = ok ([], rest)
  parse_text_columns session_location (suc n) types [] = err unexpected_eof
  parse_text_columns session_location (suc n) types (b ∷ bytes) =
      if b == 0xfb
      then (do
        (row, rest) ← parse_text_columns session_location n (drop 1 types) bytes
        ok (nil ∷ row, rest))
      else do
        (raw, used, _) ← read_length_encoded_string (b ∷ bytes)
        value ← text_value_in_location raw (type_or_text types) session_location
        (row, rest) ← parse_text_columns session_location n (drop 1 types) (drop used (b ∷ bytes))
        ok (value ∷ row, rest)

  unfoldable pub parse_text_row_in_location :
      Bytes → ℕ → List ℕ → Option Zone → Outcome (List Value)
  unfolding parse_text_columns
  parse_text_row_in_location packet column_count types session_location = do
    (row, rest) ← parse_text_columns session_location column_count types packet
    guard (length rest == 0) (message "oceanbase: text row has %d trailing bytes")
    ok row

  unfoldable pub parse_text_row : Bytes → ℕ → List ℕ → Outcome (List Value)
  unfolding parse_text_row_in_location
  parse_text_row packet column_count types =
      parse_text_row_in_location packet column_count types (some utc_zone)

-- The name of a type in a table, or `TYPE_%02X`.
abbrev pub name_in : List (ℕ × String) → ℕ → Bytes
name_in [] typ = codes "TYPE_" ++ upper_hex_digit (typ / 16) ∷ upper_hex_digit (typ % 16) ∷ []
name_in ((t, name) ∷ names) typ = if typ == t then codes name else name_in names typ

unfoldable pub database_type_name : ℕ → Bytes
database_type_name = name_in (
    (0x00, "DECIMAL")
    ∷ (0x01, "TINYINT")
    ∷ (0x02, "SMALLINT")
    ∷ (0x03, "INT")
    ∷ (0x04, "FLOAT")
    ∷ (0x05, "DOUBLE")
    ∷ (0x06, "NULL")
    ∷ (0x07, "TIMESTAMP")
    ∷ (0x08, "BIGINT")
    ∷ (0x09, "MEDIUMINT")
    ∷ (0x0a, "DATE")
    ∷ (0x0b, "TIME")
    ∷ (0x0c, "DATETIME")
    ∷ (0x0d, "YEAR")
    ∷ (0x0f, "VARCHAR")
    ∷ (0x10, "BIT")
    ∷ (0xf5, "JSON")
    ∷ (0xf6, "NEWDECIMAL")
    ∷ (0xf7, "ENUM")
    ∷ (0xf8, "SET")
    ∷ (0xf9, "TINYBLOB")
    ∷ (0xfa, "MEDIUMBLOB")
    ∷ (0xfb, "LONGBLOB")
    ∷ (0xfc, "BLOB")
    ∷ (0xfd, "VAR_STRING")
    ∷ (0xfe, "STRING")
    ∷ (0xff, "GEOMETRY")
    ∷ (0xca, "TIMESTAMP")
    ∷ (0xc8, "TIMESTAMP WITH TIME ZONE")
    ∷ (0xc9, "TIMESTAMP WITH LOCAL TIME ZONE")
    ∷ (0xcb, "RAW")
    ∷ (0xd1, "ROWID")
    ∷ (0xce, "NUMBER")
    ∷ (0xcf, "NVARCHAR2")
    ∷ (0xd0, "NCHAR")
    ∷ (0xd2, "BLOB")
    ∷ (0xd3, "CLOB")
    ∷ (0xcc, "INTERVAL YEAR TO MONTH")
    ∷ (0xcd, "INTERVAL DAY TO SECOND")
    ∷ [])

-- The five types that scanType answers.
pub data ScanType : Type 0 where
  int64_type float64_type string_type time_type bytes_type : ScanType

unfoldable pub scan_type : ℕ → ScanType
scan_type typ =
    if is_one_of typ (0x01 ∷ 0x02 ∷ 0x03 ∷ 0x09 ∷ 0x08 ∷ [])
    then int64_type
    else if is_one_of typ (0x04 ∷ 0x05 ∷ [])
    then float64_type
    else if is_one_of typ (0x00 ∷ 0xf6 ∷ [])
    then string_type
    else if is_one_of typ (0x0a ∷ 0x0c ∷ 0x07 ∷ 0xca ∷ 0xc8 ∷ 0xc9 ∷ [])
    then time_type
    else if is_one_of typ (0xf9 ∷ 0xfa ∷ 0xfb ∷ 0xfc ∷ 0xff ∷ 0xcb ∷ 0xd2 ∷ 0xd3 ∷ [])
    then bytes_type
    else string_type
