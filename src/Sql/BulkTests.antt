-- ===== src/Sql/BulkTests.antt =====
-- Tests of bulk inserts, and the witnesses of the theorems about them.
use obconnector_go.Common.{ℕ, ◌*◌, ◌≡◌, refl, List, [], ◌∷◌, ◌++◌, replicate, message, ok, Yields}
use obconnector_go.Common.State.{Method, return, fail}
use obconnector_go.Common.Bytes.{Bytes, codes}
use obconnector_go.Sql.Params.{count_placeholders}
use obconnector_go.Sql.Bulk.{
  join, quote_ident, placeholder_row, insert_query, flatten, bulk_insert_rewrite,
}
use obconnector_go.Sql.Bulk.Placeholders.{count_placeholders-insert_query}
use obconnector_go.Sql.Bulk.Chunks.{Sends, logged, bulk_insert_rewrite-Sends}

-- A name with a question mark and quotes.
abbrev strange : Bytes
strange = codes "a?" ++ 34 ∷ codes "'b"

quoted : quote_ident strange ≡ (34 ∷ codes "a?") ++ 34 ∷ 34 ∷ codes "'b" ++ 34 ∷ []
unfolding quote_ident
quoted = refl

two_marks : placeholder_row 2 ≡ ok (codes "(?, ?)")
unfolding placeholder_row
two_marks = refl

the_query :
    insert_query (codes "t") (codes "x" ∷ codes "y" ∷ []) (codes "(?, ?)")
    ≡ codes "INSERT INTO t (x, y) VALUES (?, ?)"
unfolding insert_query
the_query = refl

count_placeholders-insert_query_example :
    count_placeholders
      (insert_query strange (strange ∷ codes "y" ∷ []) (join (replicate 3 (codes "(?, ?)"))))
    ≡ 3 * 2
count_placeholders-insert_query_example =
    count_placeholders-insert_query strange strange (codes "y" ∷ []) 3 (codes "(?, ?)") two_marks

-- A database that inserts one row for each call.
abbrev one_row : Bytes → List ℕ → Method (Unit {0}) ℕ
one_row query args = return 1

one_row-answers :
    (query : Bytes) (args : List ℕ) (s : Unit {0}) → Yields (λ _. Unit) (one_row query args s).0
one_row-answers query args s = tt

abbrev no_native : Bytes → List (List ℕ) → Method (Unit {0} × List (Bytes × List ℕ)) ℕ
no_native query rows = fail (message "no native bulk insert")

abbrev two_rows : List (List ℕ)
two_rows = (1 ∷ 2 ∷ []) ∷ (3 ∷ 4 ∷ []) ∷ []

bulk_insert_rewrite-Sends_example : Sends 2 (flatten two_rows) [] (
    bulk_insert_rewrite
      (logged one_row)
      no_native
      strange
      (codes "x" ∷ codes "y" ∷ [])
      two_rows
      (tt, []))
bulk_insert_rewrite-Sends_example =
    bulk_insert_rewrite-Sends 2 one_row no_native strange (codes "x") (codes "y" ∷ [])
      one_row-answers refl two_rows tt [] (refl, (refl, tt))
