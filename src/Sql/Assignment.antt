-- ===== src/Sql/Assignment.antt =====
-- session_timezone.go: the statements that set the session time zone, and comments of SQL.
pub mod Comments
use obconnector_go.Common.{
  ℕ, zero, suc, ◌+◌, ◌-◌, ◌*◌, ◌/◌, ◌%◌, ◌^◌, ◌≤◌, ◌<◌, min, max, bit_and, bit_or, bit_xor, String,
  ◌≡◌, refl, sym, ap, ap₂, ◌∙◌, subst, ◌≢◌, ◌↔◌, ◌⊎◌, inl, inr, Bool, true, false, not, ◌&&◌, ◌||◌,
  Option, none, some, List, [], ◌∷◌, ◌++◌, map, reverse, append-nil, append_assoc, arith, ltb, leb,
  ◌==◌, if◌then◌else◌, ltb→lt, lt→ltb, ltb-false, ltb-false→le, leb→le, ==_refl, ==_iff, tests,
  Bool-cases, Option-cases, length, get_or, take, drop, replicate, All, slice, length-append,
  length-take, length-drop, take-append-drop, take_all, drop_all, take-append, drop-append,
  All-append, Error, eof, unexpected_eof, bad_conn, net_error, malformed_length_encoded_integer,
  seq_error, server_error, message, wrap, wrap_two, Outcome, ok, err, panic, stuck, ◌>>=◌, ◌>>◌,
  guard, Answers, >>=-eq-ok, Answers-bind, Answers-cases,
}
use obconnector_go.Common.Bytes.{Bytes, codes, beq_bytes}
use obconnector_go.Sql.Params.{next_is, non_empty, Value, string, byte_slice, NamedValue}
use obconnector_go.Sql.TimeZone.{is_space, trim_space, upper, contains_any}

-- isSQLSpace
abbrev pub is_sql_space : ℕ → Bool
is_sql_space ch = ch == 32 || (ch == 9 || (ch == 13 || (ch == 10 || (ch == 12 || ch == 11))))

-- Where the loop of stripSQLComments stands: outside of quotes and comments, inside one of the two
-- quotes (inSingleQuote, inDoubleQuote), or in one of its inner loops over a comment.
pub data StripState : Type 0 where
  outside in_single_quote in_double_quote in_block in_line : StripState

-- `i+2 == len(query) || isSQLSpace(query[i+2])` behind a second dash.
abbrev pub dash_ends : Bytes → Bool
dash_ends [] = false
dash_ends (d ∷ []) = d == 45
dash_ends (d ∷ e ∷ rest) = d == 45 && is_sql_space e

-- What is written for query[i], the state of the next round, and whether the next byte is passed
-- over with this one.
unfoldable pub strip_outside : ℕ → Bytes → Bytes × StripState × Bool
strip_outside ch rest =
    if ch == 39
    then (ch ∷ [], in_single_quote, false)
    else if ch == 34
    then (ch ∷ [], in_double_quote, false)
    else if ch == 47 && next_is 42 rest
    then (32 ∷ [], in_block, true)
    else if ch == 45 && dash_ends rest
    then (32 ∷ [], in_line, true)
    else if ch == 35
    then (32 ∷ [], in_line, false)
    else (ch ∷ [], outside, false)

abbrev pub strip_quoted : ℕ → StripState → ℕ → Bytes → Bytes × StripState × Bool
strip_quoted quote st ch rest =
    if ch == quote
    then (if next_is quote rest then (ch ∷ quote ∷ [], st, true) else (ch ∷ [], outside, false))
    else (ch ∷ [], st, false)

-- The loop over a block comment stops short of the last byte of the query, which is then read as
-- text; the loop over a line comment stops at the line feed, which is read as text.
unfoldable pub strip_step : StripState → ℕ → Bytes → Bytes × StripState × Bool
unfolding strip_outside
strip_step outside ch rest = strip_outside ch rest
strip_step in_single_quote ch rest = strip_quoted 39 in_single_quote ch rest
strip_step in_double_quote ch rest = strip_quoted 34 in_double_quote ch rest
strip_step in_block ch [] = strip_outside ch []
strip_step in_block ch (x ∷ rest) =
    if ch == 42 && x == 47 then ([], outside, true) else ([], in_block, false)
strip_step in_line ch rest = if ch == 10 then strip_outside ch rest else ([], in_line, false)

unfoldable pub strip_from : StripState → Bool → Bytes → Bytes
unfolding strip_step
strip_from st skip [] = []
strip_from st true (ch ∷ rest) = strip_from st false rest
strip_from st false (ch ∷ rest) =
    let (written, st', skip) = strip_step st ch rest in written ++ strip_from st' skip rest

unfoldable pub strip_sql_comments : Bytes → Bytes
unfolding strip_from
strip_sql_comments query = strip_from outside false query

-- `strings.Join(strings.Fields(s), " ")`: `gap` is set where a space is due before the next field.
unfoldable pub join_fields : Bool → Bytes → Bytes
join_fields gap [] = []
join_fields gap (c ∷ cs) =
    let rest = join_fields (is_space c) cs in
    if is_space c then rest else if gap then 32 ∷ c ∷ rest else c ∷ rest

unfoldable pub words_of : Bytes → Bytes
unfolding join_fields trim_space
words_of s = map upper (join_fields false (trim_space s))

-- `strings.TrimSuffix(query, ";")`
abbrev pub trim_semicolon : Bytes → Bytes
trim_semicolon [] = []
trim_semicolon (c ∷ []) = if c == 59 then [] else c ∷ []
trim_semicolon (c ∷ d ∷ cs) = c ∷ trim_semicolon (d ∷ cs)

-- `strings.IndexByte(query, '=')`, none for -1.
abbrev pub index_byte : ℕ → ℕ → Bytes → Option ℕ
index_byte ch i [] = none
index_byte ch i (c ∷ cs) = if c == ch then some i else index_byte ch (suc i) cs

abbrev pub mutation_prefixes : List Bytes
mutation_prefixes =
    codes "ALTER SESSION SET TIME_ZONE"
    ∷ codes "ALTER SYSTEM SESSION SET TIME_ZONE"
    ∷ codes "SET TIME_ZONE"
    ∷ codes "SET SESSION TIME_ZONE"
    ∷ codes "SET @@TIME_ZONE"
    ∷ codes "SET @@SESSION.TIME_ZONE"
    ∷ []

unfoldable pub any_equal : Bytes → List Bytes → Bool
unfolding beq_bytes
any_equal s [] = false
any_equal s (p ∷ ps) = beq_bytes s p || any_equal s ps

-- The index of the quote that ends the text, from index i on.
unfoldable pub closing_quote : ℕ → Bool → ℕ → Bytes → Option ℕ
closing_quote quote skip i [] = none
closing_quote quote true i (c ∷ rest) = closing_quote quote false (suc i) rest
closing_quote quote false i (c ∷ rest) =
    let further = closing_quote quote (c == quote) (suc i) rest in
    if c == quote && not (next_is quote rest) then some i else further

-- `strings.ReplaceAll(s, quote+quote, quote)`
unfoldable pub undouble : ℕ → Bool → Bytes → Bytes
undouble quote skip [] = []
undouble quote true (c ∷ cs) = undouble quote false cs
undouble quote false (c ∷ cs) = c ∷ undouble quote (c == quote && next_is quote cs) cs

-- The value of a quoted right-hand side, whose opening quote is `rest[0]`.
unfoldable pub quoted_value : ℕ → Bytes → Option (Bytes × Bool)
unfolding closing_quote undouble trim_space
quoted_value quote rest = elim (closing_quote quote false 1 (drop 1 rest)) [
  | none ↦ none
  | some i ↦
      if non_empty (trim_space (drop (i + 1) rest))
      then none
      else some (undouble quote false (slice 1 i rest), false)
]

unfoldable pub assigned_value : Bytes → Option (Bytes × Bool)
unfolding quoted_value beq_bytes
assigned_value rest =
    if beq_bytes rest (codes "?")
    then some (rest, true)
    else if leb 2 (length rest) && (get_or rest 0 0 == 39 || get_or rest 0 0 == 34)
    then quoted_value (get_or rest 0 0) rest
    else if not (non_empty rest) || contains_any (32 ∷ 9 ∷ 13 ∷ 10 ∷ []) rest
    then none
    else some (rest, false)

-- The value and whether it is a placeholder; none where the code answers ok = false.
unfoldable pub session_time_zone_assignment_from_query : Bytes → Option (Bytes × Bool)
unfolding strip_sql_comments trim_space words_of any_equal assigned_value
session_time_zone_assignment_from_query text =
    let query = trim_space (trim_semicolon (trim_space (strip_sql_comments text))) in
    elim (index_byte 61 0 query) [
      | none ↦ none
      | some zero ↦ none
      | some (suc i) ↦
          if any_equal (words_of (take (suc i) query)) mutation_prefixes
          then assigned_value (trim_space (drop (suc i + 1) query))
          else none
    ]

abbrev pub has_prefix : Bytes → Bytes → Bool
has_prefix s p = beq_bytes (take (length p) s) p

unfoldable pub any_prefix : Bytes → List Bytes → Bool
unfolding beq_bytes
any_prefix s [] = false
any_prefix s (p ∷ ps) =
    (beq_bytes s p || (has_prefix s (p ++ 32 ∷ []) || has_prefix s (p ++ 61 ∷ [])))
    || any_prefix s ps

unfoldable pub is_session_time_zone_mutation : Bytes → Bool
unfolding strip_sql_comments words_of any_prefix
is_session_time_zone_mutation query =
    any_prefix (words_of (strip_sql_comments query)) mutation_prefixes

-- sessionTimeZoneValueFromArgs
unfoldable pub session_time_zone_value_from_args : List NamedValue → Outcome Bytes
session_time_zone_value_from_args (arg ∷ []) = elim (arg.value) [
  | string s ↦ ok s
  | byte_slice s ↦ ok s
  | _ ↦ err (message "session time zone argument has unsupported type %T")
]
session_time_zone_value_from_args _ =
    err (message "session time zone placeholder requires exactly one argument, got %d")
