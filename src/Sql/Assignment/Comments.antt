-- ===== src/Sql/Assignment/Comments.antt =====
-- Comments and text literals.
use obconnector_go.Common.{◌≡◌, refl, sym, ap, ◌∙◌, false, [], ◌∷◌, ◌++◌, append_assoc, arith}
use obconnector_go.Common.Bytes.{Bytes}
use obconnector_go.Sql.Assignment.{outside, in_single_quote, strip_outside, strip_step, strip_from}
use obconnector_go.Sql.Params.{next_is, double_quotes, quote_string}

quoted :
    (s rest : Bytes)
    → next_is 39 rest ≡ false
    → strip_from in_single_quote false (double_quotes s ++ 39 ∷ rest)
      ≡ double_quotes s ++ 39 ∷ strip_from outside false rest
unfolding double_quotes strip_from strip_step
quoted [] rest h = rw h refl
quoted (c ∷ s) rest h = ground (arith, quoted s rest h)

-- Comment markers inside a text literal are not taken for comments: stripSQLComments leaves a
-- quoted string as it is, whatever bytes its value has, and goes on behind it as at the start of a
-- query, provided that the text that follows does not begin with a quote.
pub strip_from-quote_string :
    (s rest : Bytes)
    → next_is 39 rest ≡ false
    → strip_from outside false (quote_string s ++ rest)
      ≡ quote_string s ++ strip_from outside false rest
unfolding quote_string strip_from strip_step strip_outside
strip_from-quote_string s rest h =
    rw (append_assoc (double_quotes s) (39 ∷ []) rest)
      (ap (◌∷◌ 39) (quoted s rest h ∙ sym (append_assoc (double_quotes s) (39 ∷ []) _)))
