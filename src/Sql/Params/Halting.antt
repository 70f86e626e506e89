-- ===== src/Sql/Params/Halting.antt =====
-- interpolateParams answers, whatever the query and the arguments are.
use obconnector_go.Common.{
  ℕ, Bool, true, false, ◌&&◌, List, [], ◌∷◌, ◌==◌, if◌then◌else◌, ltb, Outcome, Yields, Yields-bind,
  if-Yields,
}
use obconnector_go.Common.Bytes.{Bytes}
use obconnector_go.Protocol.Calendar.{Moment}
use obconnector_go.Sql.Params.{
  SqlState, sql_normal, sql_single_quote, sql_double_quote, sql_backtick, sql_line_comment,
  sql_block_comment, NamedValue, Value, nil, int64, float64, bool, byte_slice, string, time, other,
  InterpolateLoop, non_empty, next_is, literal_value, literal, put_argument, interpolate_normal,
  interpolate_body, interpolate_next, interpolate_loop, interpolate_params, count_placeholders,
}

abbrev Halting : {A : Type 0} → Outcome A → Type 0
Halting r = Yields (λ _. Unit) r

if-Halting :
    {A : Type 0} (t : Bool) (r s : Outcome A) → Halting r → Halting s → Halting (if t then r else s)
if-Halting t r s h k = if-Yields (λ _. Unit) t r s h k

module _ (format_float : ℕ → Bytes) (format_time : Moment → Bytes) where
  value-Halting : (v : Value) → Halting (literal_value format_float format_time v)
  unfolding literal_value
  value-Halting nil = tt
  value-Halting (int64 v) = tt
  value-Halting (float64 v) = tt
  value-Halting (bool v) = tt
  value-Halting (byte_slice v) = tt
  value-Halting (string v) = tt
  value-Halting (time v) = tt
  value-Halting other = tt

  put_argument-Halting :
      (args : List NamedValue) (out : Bytes)
      → Halting (put_argument format_float format_time args out)
  unfolding put_argument literal
  put_argument-Halting [] out = tt
  put_argument-Halting (arg ∷ args) out =
      Yields-bind (λ _. Unit) (λ _. Unit) (literal format_float format_time arg) _
        (if-Halting (non_empty arg.name) _ _ tt (value-Halting arg.value)) λ _ _. tt

  normal-Halting :
      (ch : ℕ) (rest : Bytes) (args : List NamedValue) (out : Bytes)
      → Halting (interpolate_normal format_float format_time ch rest args out)
  unfolding interpolate_normal
  normal-Halting ch rest args out = if-Halting (ch == 39) _ _ tt (
      if-Halting (ch == 34) _ _ tt (
        if-Halting (ch == 96) _ _ tt (
          if-Halting (ch == 35) _ _ tt (
            if-Halting (ch == 45) _ _ (if-Halting (next_is 45 rest) _ _ tt tt) (
              if-Halting (ch == 47) _ _ (if-Halting (next_is 42 rest) _ _ tt tt)
                (if-Halting (ch == 63) _ _ (put_argument-Halting args out) tt))))))

  body-Halting :
      (st : SqlState) (ch : ℕ) (rest : Bytes) (args : List NamedValue) (out : Bytes)
      → Halting (interpolate_body format_float format_time st ch rest args out)
  unfolding interpolate_body
  body-Halting sql_normal ch rest args out = normal-Halting ch rest args out
  body-Halting sql_single_quote ch rest args out =
      if-Halting (ch == 39) _ _ (if-Halting (next_is 39 rest) _ _ tt tt) tt
  body-Halting sql_double_quote ch rest args out = if-Halting (ch == 34) _ _ tt tt
  body-Halting sql_backtick ch rest args out = if-Halting (ch == 96) _ _ tt tt
  body-Halting sql_line_comment ch rest args out = if-Halting (ch == 10) _ _ tt tt
  body-Halting sql_block_comment ch rest args out =
      if-Halting (ch == 42 && next_is 47 rest) _ _ tt tt

  next-Halting :
      (l : InterpolateLoop) (ch : ℕ) (rest : Bytes)
      → Halting (interpolate_next format_float format_time l ch rest)
  unfolding interpolate_next
  next-Halting (st, true, args, out) ch rest = tt
  next-Halting (st, false, args, out) ch rest = body-Halting st ch rest args out

  loop-Halting :
      (query : Bytes) (l : InterpolateLoop)
      → Halting (interpolate_loop format_float format_time query l)
  unfolding interpolate_loop
  loop-Halting [] (st, skip, [], out) = tt
  loop-Halting [] (st, skip, arg ∷ args, out) = tt
  loop-Halting (ch ∷ rest) l =
      Yields-bind (λ _. Unit) (λ _. Unit) (interpolate_next format_float format_time l ch rest) _
        (next-Halting l ch rest) λ l' _. loop-Halting rest l'

  pub interpolate_params-Yields :
      (query : Bytes) (args : List NamedValue)
      → Yields (λ _. Unit) (interpolate_params format_float format_time query args)
  unfolding interpolate_params
  interpolate_params-Yields query [] = if-Halting (ltb 0 (count_placeholders query)) _ _ tt tt
  interpolate_params-Yields query (arg ∷ args) =
      loop-Halting query (sql_normal, false, arg ∷ args, [])
