-- ===== src/Sql/Params/Quoting.antt =====
-- A quoted string is scanned as one literal.
use obconnector_go.Common.{ℕ, ◌≡◌, refl, false, [], ◌∷◌, ◌++◌, append_assoc, arith}
use obconnector_go.Common.Bytes.{Bytes}
use obconnector_go.Sql.Params.{
  sql_normal, sql_single_quote, next_is, count_normal, count_body, count_next, count_loop,
  double_quotes, quote_string,
}

inside :
    (s rest : Bytes) (n : ℕ)
    → next_is 39 rest ≡ false
    → count_loop (double_quotes s ++ 39 ∷ rest) (sql_single_quote, false, n)
      ≡ count_loop rest (sql_normal, false, n)
unfolding double_quotes count_loop count_next count_body
inside [] rest n h = rw h refl
inside (c ∷ s) rest n h = ground (arith, inside s rest n h)

-- Wherever a text literal stands in a statement, the scan for placeholders takes the whole of it
-- as one quoted string, whatever bytes the value has: after the literal the scan is back in the
-- normal state at the text that follows, with the count unchanged, provided that the text that
-- follows does not begin with a quote.
pub count_loop-quote_string :
    (s rest : Bytes) (n : ℕ)
    → next_is 39 rest ≡ false
    → count_loop (quote_string s ++ rest) (sql_normal, false, n)
      ≡ count_loop rest (sql_normal, false, n)
unfolding quote_string count_loop count_next count_body count_normal
count_loop-quote_string s rest n h =
    rw (append_assoc (double_quotes s) (39 ∷ []) rest) (inside s rest n h)
