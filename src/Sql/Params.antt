-- ===== src/Sql/Params.antt =====
-- params.go: the scan of a statement for placeholders, and the literals put in their place.
pub mod Arguments
pub mod Quoting
pub mod Halting
use obconnector_go.Common.{
  ℕ, zero, suc, ◌+◌, ◌-◌, ◌*◌, ◌/◌, ◌%◌, ◌^◌, ◌≤◌, ◌<◌, min, max, bit_and, bit_or, bit_xor, String,
  ◌≡◌, refl, sym, ap, ap₂, ◌∙◌, subst, ◌≢◌, ◌↔◌, ◌⊎◌, inl, inr, Bool, true, false, not, ◌&&◌, ◌||◌,
  Option, none, some, List, [], ◌∷◌, ◌++◌, map, reverse, append-nil, append_assoc, arith, ltb, leb,
  ◌==◌, if◌then◌else◌, ltb→lt, lt→ltb, ltb-false, ltb-false→le, leb→le, ==_refl, ==_iff, tests,
  Bool-cases, Option-cases, length, get_or, take, drop, replicate, All, slice, length-append,
  length-take, length-drop, take-append-drop, take_all, drop_all, take-append, drop-append,
  All-append, Error, eof, unexpected_eof, bad_conn, net_error, malformed_length_encoded_integer,
  seq_error, server_error, message, wrap, wrap_two, Outcome, ok, err, panic, stuck, ◌>>=◌, ◌>>◌,
  guard, Answers, >>=-eq-ok, Answers-bind, Answers-cases,
}
use obconnector_go.Common.Bytes.{
  Bytes, IsByte, codes, le_bytes, le_value, or_value, three_bytes, beq_bytes, beq_bytes_refl,
  length-le_bytes, le_bytes-IsByte, le_value-le_bytes, or_value_lem,
}
use obconnector_go.Protocol.Calendar.{Time, Moment}
use obconnector_go.Common.Int.{ℤ, nat_abs, is_neg}

-- The constants of sqlState.
pub data SqlState : Type 0 where
  sql_normal sql_single_quote sql_double_quote sql_backtick sql_line_comment sql_block_comment :
      SqlState

-- `i+1 < len(query) && query[i+1] == c`, where `rest` is what follows query[i].
abbrev pub next_is : ℕ → Bytes → Bool
next_is c [] = false
next_is c (x ∷ xs) = x == c

-- The variables of the loop of countPlaceholders: state, whether the body has done `i++`, count.
abbrev pub CountLoop : Type 0
CountLoop = SqlState × Bool × ℕ

unfoldable pub count_normal : ℕ → Bytes → ℕ → CountLoop
count_normal ch rest n =
    if ch == 39
    then (sql_single_quote, false, n)
    else if ch == 34
    then (sql_double_quote, false, n)
    else if ch == 96
    then (sql_backtick, false, n)
    else if ch == 35
    then (sql_line_comment, false, n)
    else if ch == 45
    then (if next_is 45 rest then (sql_line_comment, true, n) else (sql_normal, false, n))
    else if ch == 47
    then (if next_is 42 rest then (sql_block_comment, true, n) else (sql_normal, false, n))
    else if ch == 63
    then (sql_normal, false, suc n)
    else (sql_normal, false, n)

unfoldable pub count_body : SqlState → ℕ → Bytes → ℕ → CountLoop
unfolding count_normal
count_body sql_normal ch rest n = count_normal ch rest n
count_body sql_single_quote ch rest n =
    if ch == 39
    then (if next_is 39 rest then (sql_single_quote, true, n) else (sql_normal, false, n))
    else (sql_single_quote, false, n)
count_body sql_double_quote ch rest n =
    if ch == 34 then (sql_normal, false, n) else (sql_double_quote, false, n)
count_body sql_backtick ch rest n =
    if ch == 96 then (sql_normal, false, n) else (sql_backtick, false, n)
count_body sql_line_comment ch rest n =
    if ch == 10 then (sql_normal, false, n) else (sql_line_comment, false, n)
count_body sql_block_comment ch rest n =
    if ch == 42 && next_is 47 rest then (sql_normal, true, n) else (sql_block_comment, false, n)

unfoldable pub count_next : CountLoop → ℕ → Bytes → CountLoop
unfolding count_body
count_next (st, true, n) ch rest = (st, false, n)
count_next (st, false, n) ch rest = count_body st ch rest n

unfoldable pub count_loop : Bytes → CountLoop → ℕ
unfolding count_next
count_loop [] (st, skip, n) = n
count_loop (ch ∷ rest) l = count_loop rest (count_next l ch rest)

unfoldable pub count_placeholders : Bytes → ℕ
unfolding count_loop
count_placeholders query = count_loop query (sql_normal, false, 0)

-- `driver.Value`: a float64 is its 64 bits, a time.Time is its fields in its location with the offset of that; `other`
-- is a value of any other type.
pub data Value : Type 0 where
  nil : Value
  int64 : ℤ → Value
  float64 : ℕ → Value
  bool : Bool → Value
  byte_slice : Bytes → Value
  string : Bytes → Value
  time : Moment → Value
  other : Value

pub record NamedValue : Type 0 where
  pub name : Bytes
  pub ordinal : ℕ
  pub value : Value

-- `strings.ReplaceAll(s, "'", "''")`
unfoldable pub double_quotes : Bytes → Bytes
double_quotes [] = []
double_quotes (c ∷ cs) = let rest = double_quotes cs in if c == 39 then 39 ∷ 39 ∷ rest else c ∷ rest

unfoldable pub quote_string : Bytes → Bytes
unfolding double_quotes
quote_string s = (39 ∷ double_quotes s) ++ 39 ∷ []

-- The decimal digits of a number below 10 ^ fuel.
unfoldable pub decimal_from : ℕ → ℕ → Bytes
decimal_from zero n = []
decimal_from (suc fuel) n = elim (ltb n 10) [
  | true ↦ (48 + n) ∷ []
  | false ↦ decimal_from fuel (n / 10) ++ (48 + n % 10) ∷ []
]

-- `strconv.FormatInt(v, 10)`: an int64 has at most 19 digits.
unfoldable pub format_int : ℤ → Bytes
unfolding decimal_from
format_int v = if is_neg v then 45 ∷ decimal_from 20 (nat_abs v) else decimal_from 20 (nat_abs v)

abbrev pub upper_hex_digit : ℕ → ℕ
upper_hex_digit d = if ltb d 10 then 48 + d else 55 + d

-- `strings.ToUpper(hex.EncodeToString(v))`
unfoldable pub hex_upper : Bytes → Bytes
hex_upper [] = []
hex_upper (b ∷ bs) = upper_hex_digit (b / 16) ∷ upper_hex_digit (b % 16) ∷ hex_upper bs

-- Whether a Go string is not "".
abbrev pub non_empty : Bytes → Bool
non_empty [] = false
non_empty (x ∷ xs) = true

-- The variables of the loop of interpolateParams: state, whether the body has done `i++`, the
-- arguments from argPos on, and what has been written to `out`.
abbrev pub InterpolateLoop : Type 0
InterpolateLoop = SqlState × Bool × List NamedValue × Bytes

-- The renderings of floating-point numbers and of times are not followed into strconv and time:
-- `strconv.FormatFloat(v, 'g', -1, 64)` and `v.Format("2006-01-02 15:04:05.999999999")`.
module _ (format_float : ℕ → Bytes) (format_time : Moment → Bytes) where
  unfoldable pub literal_value : Value → Outcome Bytes
  unfolding quote_string format_int hex_upper
  literal_value nil = ok (codes "NULL")
  literal_value (int64 v) = ok (format_int v)
  literal_value (float64 v) = ok (format_float v)
  literal_value (bool v) = ok (if v then codes "1" else codes "0")
  literal_value (byte_slice v) = ok ((codes "hextoraw('" ++ hex_upper v) ++ codes "')")
  literal_value (string v) = ok (quote_string v)
  literal_value (time v) = ok (codes "timestamp " ++ quote_string (format_time v))
  literal_value other = err (message "oceanbase: unsupported parameter type %T")

  unfoldable pub literal : NamedValue → Outcome Bytes
  unfolding literal_value
  literal arg =
      if non_empty arg.name
      then err (message "oceanbase: named parameters are not implemented")
      else literal_value arg.value

  unfoldable pub put_argument : List NamedValue → Bytes → Outcome InterpolateLoop
  unfolding literal
  put_argument [] out = err (message "oceanbase: not enough query arguments")
  put_argument (arg ∷ args) out = do lit ← literal arg; ok (sql_normal, false, args, out ++ lit)

  unfoldable pub interpolate_normal : ℕ → Bytes → List NamedValue → Bytes → Outcome InterpolateLoop
  unfolding put_argument
  interpolate_normal ch rest args out =
      if ch == 39
      then ok (sql_single_quote, false, args, out ++ ch ∷ [])
      else if ch == 34
      then ok (sql_double_quote, false, args, out ++ ch ∷ [])
      else if ch == 96
      then ok (sql_backtick, false, args, out ++ ch ∷ [])
      else if ch == 35
      then ok (sql_line_comment, false, args, out ++ ch ∷ [])
      else if ch == 45
      then (if next_is 45 rest
          then ok (sql_line_comment, true, args, out ++ codes "--")
          else ok (sql_normal, false, args, out ++ ch ∷ []))
      else if ch == 47
      then (if next_is 42 rest
          then ok (sql_block_comment, true, args, out ++ codes "/*")
          else ok (sql_normal, false, args, out ++ ch ∷ []))
      else if ch == 63
      then put_argument args out
      else ok (sql_normal, false, args, out ++ ch ∷ [])

  unfoldable pub interpolate_body :
      SqlState → ℕ → Bytes → List NamedValue → Bytes → Outcome InterpolateLoop
  unfolding interpolate_normal
  interpolate_body sql_normal ch rest args out = interpolate_normal ch rest args out
  interpolate_body sql_single_quote ch rest args out =
      if ch == 39
      then (if next_is 39 rest
          then ok (sql_single_quote, true, args, (out ++ ch ∷ []) ++ get_or rest 0 0 ∷ [])
          else ok (sql_normal, false, args, out ++ ch ∷ []))
      else ok (sql_single_quote, false, args, out ++ ch ∷ [])
  interpolate_body sql_double_quote ch rest args out =
      if ch == 34
      then ok (sql_normal, false, args, out ++ ch ∷ [])
      else ok (sql_double_quote, false, args, out ++ ch ∷ [])
  interpolate_body sql_backtick ch rest args out =
      if ch == 96
      then ok (sql_normal, false, args, out ++ ch ∷ [])
      else ok (sql_backtick, false, args, out ++ ch ∷ [])
  interpolate_body sql_line_comment ch rest args out =
      if ch == 10
      then ok (sql_normal, false, args, out ++ ch ∷ [])
      else ok (sql_line_comment, false, args, out ++ ch ∷ [])
  interpolate_body sql_block_comment ch rest args out =
      if ch == 42 && next_is 47 rest
      then ok (sql_normal, true, args, (out ++ ch ∷ []) ++ 47 ∷ [])
      else ok (sql_block_comment, false, args, out ++ ch ∷ [])

  unfoldable pub interpolate_next : InterpolateLoop → ℕ → Bytes → Outcome InterpolateLoop
  unfolding interpolate_body
  interpolate_next (st, true, args, out) ch rest = ok (st, false, args, out)
  interpolate_next (st, false, args, out) ch rest = interpolate_body st ch rest args out

  -- The loop of interpolateParams and the test after it.
  unfoldable pub interpolate_loop : Bytes → InterpolateLoop → Outcome Bytes
  unfolding interpolate_next
  interpolate_loop [] (st, skip, [], out) = ok out
  interpolate_loop [] (st, skip, arg ∷ args, out) =
      err (message "oceanbase: too many query arguments")
  interpolate_loop (ch ∷ rest) l = do l' ← interpolate_next l ch rest; interpolate_loop rest l'

  unfoldable pub interpolate_params : Bytes → List NamedValue → Outcome Bytes
  unfolding count_placeholders interpolate_loop
  interpolate_params query [] =
      if ltb 0 (count_placeholders query)
      then err (message "oceanbase: not enough query arguments")
      else ok query
  interpolate_params query (arg ∷ args) = interpolate_loop query (sql_normal, false, arg ∷ args, [])

-- The loop of valuesToNamed from index i on; the nil slice is the empty list.
unfoldable pub values_from : ℕ → List Value → List NamedValue
values_from i [] = []
values_from i (v ∷ vs) = record { name = []; ordinal = i + 1; value = v } ∷ values_from (i + 1) vs

unfoldable pub values_to_named : List Value → List NamedValue
unfolding values_from
values_to_named values = values_from 0 values
