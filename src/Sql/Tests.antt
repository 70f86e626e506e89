-- ===== src/Sql/Tests.antt =====
-- Statements of the tests of the repository, and runs of the theorems on them.
use obconnector_go.Common.{
  ◌≡◌, refl, true, false, some, List, [], ◌∷◌, ◌++◌, length, message, ok, err,
}
use obconnector_go.Common.Bytes.{Bytes, codes}
use obconnector_go.Common.Int.{neg_ℕ}
use obconnector_go.Sql.Params.{
  int64, string, NamedValue, sql_normal, count_loop, count_placeholders, literal_value, literal,
  interpolate_params, quote_string, format_int,
}
use obconnector_go.Sql.Params.Quoting.{count_loop-quote_string}
use obconnector_go.Sql.Params.Arguments.{Decided, interpolate_params-Decided}
use obconnector_go.Sql.TimeZone.{fixed_zone, parse_session_time_zone, session_time_zone_sql}
use obconnector_go.Sql.TimeZone.Offsets.{Reads, parse-canonical}
use obconnector_go.Sql.Assignment.{
  outside, strip_from, strip_sql_comments, session_time_zone_assignment_from_query,
  is_session_time_zone_mutation,
}
use obconnector_go.Sql.Assignment.Comments.{strip_from-quote_string}

abbrev no_format {ℓ} : {A : Type ℓ} → A → Bytes
no_format n = []

abbrev two_args : List NamedValue
two_args =
    record { name = []; ordinal = 1; value = int64 (neg_ℕ 12) }
    ∷ record { name = []; ordinal = 2; value = string (codes "it's") }
    ∷ []

abbrev query : Bytes
query = codes "select ?, '?' /* ? */ from t where a = ? -- ?"

interpolated :
    interpolate_params no_format no_format query two_args
    ≡ ok (codes "select -12, '?' /* ? */ from t where a = 'it''s' -- ?")
unfolding interpolate_params
interpolated = refl

interpolate_params-Decided_example :
    Decided
      (length two_args)
      (count_placeholders query)
      (interpolate_params no_format no_format query two_args)
unfolding literal literal_value
interpolate_params-Decided_example =
    interpolate_params-Decided no_format no_format query two_args
      ((format_int (neg_ℕ 12), refl), ((quote_string (codes "it's"), refl), tt))

count_loop-quote_string_example :
    count_loop (quote_string (codes "a?'") ++ codes " = ?") (sql_normal, false, 3)
    ≡ count_loop (codes " = ?") (sql_normal, false, 3)
count_loop-quote_string_example = count_loop-quote_string (codes "a?'") (codes " = ?") 3 refl

spaced :
    parse_session_time_zone (codes " -09:30 ")
    ≡ ok (fixed_zone (codes "UTC-09:30") (neg_ℕ 34200), codes "-09:30")
unfolding parse_session_time_zone
spaced = refl

out_of_range :
    parse_session_time_zone (codes "+13:01")
    ≡ err (message "session time zone %q is outside OceanBase range")
unfolding parse_session_time_zone
out_of_range = refl

parse-canonical_example : Reads (fixed_zone (codes "UTC-09:30") (neg_ℕ 34200)) (codes "-09:30")
parse-canonical_example =
    parse-canonical (codes " -09:30 ") (fixed_zone (codes "UTC-09:30") (neg_ℕ 34200))
      (codes "-09:30") spaced

own_statement :
    session_time_zone_assignment_from_query (session_time_zone_sql (codes "-09:30"))
    ≡ some (codes "-09:30", false)
unfolding session_time_zone_assignment_from_query session_time_zone_sql
own_statement = refl

commented : strip_sql_comments (codes "set /* a */ time_zone -- b") ≡ codes "set   time_zone  "
unfolding strip_sql_comments
commented = refl

mutation : is_session_time_zone_mutation (codes "Set  Time_Zone to x") ≡ true
unfolding is_session_time_zone_mutation
mutation = refl

strip_from-quote_string_example :
    strip_from outside false (quote_string (codes "--'/*") ++ codes " # x")
    ≡ quote_string (codes "--'/*") ++ strip_from outside false (codes " # x")
strip_from-quote_string_example = strip_from-quote_string (codes "--'/*") (codes " # x") refl
