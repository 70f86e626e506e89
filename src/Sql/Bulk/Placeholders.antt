-- ===== src/Sql/Bulk/Placeholders.antt =====
-- The statement of a chunk has a placeholder for each value.
use obconnector_go.Common.{
  ℕ, zero, suc, ◌+◌, ◌*◌, ◌≡◌, refl, sym, ap, ◌∙◌, inl, inr, Bool, true, false, ◌&&◌, ◌||◌, List,
  [], ◌∷◌, ◌++◌, map, append-nil, append_assoc, arith, ◌==◌, Bool-cases, length, replicate, ok,
}
use obconnector_go.Common.Bytes.{Bytes, codes}
use native.Mathlib.Nat.{suc-mul}
use obconnector_go.Sql.Params.{
  sql_normal, sql_double_quote, count_normal, count_body, count_next, count_loop,
  count_placeholders,
}
use obconnector_go.Sql.Bulk.{
  is_alpha, is_alnum, is_ident_rest, is_simple_ident, double_marks, quote_ident, join,
  quote_ident_list, marks, placeholder_row, insert_query,
}

both : (a b : Bool) → (a && b) ≡ true → (a ≡ true) × (b ≡ true)
both true b h = (refl, h)
both false b h = cc

letter-step :
    (c : ℕ) (cs : Bytes) (n : ℕ)
    → (is_alnum c || c == 95) ≡ true
    → count_loop (c ∷ cs) (sql_normal, false, n) ≡ count_loop cs (sql_normal, false, n)
unfolding count_loop count_next count_body count_normal
letter-step c cs n h = ground arith

simple-scan :
    (cs rest : Bytes) (n : ℕ)
    → is_ident_rest cs ≡ true
    → count_loop (cs ++ rest) (sql_normal, false, n) ≡ count_loop rest (sql_normal, false, n)
simple-scan [] rest n h = refl
simple-scan (c ∷ cs) rest n h =
    let (here, later) = both (is_alnum c || c == 95) (is_ident_rest cs) h in
    letter-step c (cs ++ rest) n here ∙ simple-scan cs rest n later

inside-marks :
    (s rest : Bytes) (n : ℕ)
    → count_loop (double_marks s ++ 34 ∷ rest) (sql_double_quote, false, n)
      ≡ count_loop rest (sql_normal, false, n)
unfolding double_marks count_loop count_next count_body count_normal
inside-marks [] rest n = refl
inside-marks (c ∷ s) rest n = ground (arith, inside-marks s rest n)

alpha-alnum : (c : ℕ) → is_alpha c ≡ true → (is_alnum c || c == 95) ≡ true
alpha-alnum c h = ground arith

simple-ident-scan :
    (name rest : Bytes) (n : ℕ)
    → is_simple_ident name ≡ true
    → count_loop (name ++ rest) (sql_normal, false, n) ≡ count_loop rest (sql_normal, false, n)
unfolding is_simple_ident
simple-ident-scan [] rest n h = cc
simple-ident-scan (c ∷ cs) rest n h =
    let (here, later) = both (is_alpha c) (is_ident_rest cs) h in
    letter-step c (cs ++ rest) n (alpha-alnum c here) ∙ simple-scan cs rest n later

quoted-scan :
    (name rest : Bytes) (n : ℕ)
    → count_loop ((34 ∷ double_marks name) ++ 34 ∷ [] ++ rest) (sql_normal, false, n)
      ≡ count_loop rest (sql_normal, false, n)
unfolding count_loop count_next count_body count_normal
quoted-scan name rest n =
    rw (append_assoc (double_marks name) (34 ∷ []) rest) (inside-marks name rest n)

ident-scan :
    (name rest : Bytes) (n : ℕ)
    → count_loop (quote_ident name ++ rest) (sql_normal, false, n)
      ≡ count_loop rest (sql_normal, false, n)
unfolding quote_ident
ident-scan name rest n = elim (Bool-cases (is_simple_ident name)) [
  | inl e ↦ rw e (simple-ident-scan name rest n e)
  | inr e ↦ rw e (quoted-scan name rest n)
]

comma :
    (rest : Bytes) (n : ℕ)
    → count_loop (44 ∷ 32 ∷ rest) (sql_normal, false, n) ≡ count_loop rest (sql_normal, false, n)
unfolding count_loop count_next count_body count_normal
comma rest n = refl

list-scan :
    (names : List Bytes) (rest : Bytes) (n : ℕ)
    → count_loop (join (map quote_ident names) ++ rest) (sql_normal, false, n)
      ≡ count_loop rest (sql_normal, false, n)
list-scan [] rest n = refl
list-scan (name ∷ []) rest n = ident-scan name rest n
list-scan (name ∷ next ∷ names) rest n =
    ap (λ t. count_loop t (sql_normal, false, n))
      (append_assoc (quote_ident name) (44 ∷ 32 ∷ join (map quote_ident (next ∷ names))) rest)
    ∙ ident-scan name _ n
    ∙ comma (join (map quote_ident (next ∷ names)) ++ rest) n
    ∙ list-scan (next ∷ names) rest n

-- The scan from a count on.
abbrev from_count : Bytes → ℕ → ℕ
from_count xs n = count_loop xs (sql_normal, false, n)

mark-step : (rest : Bytes) (n : ℕ) → from_count (63 ∷ 44 ∷ 32 ∷ rest) n ≡ from_count rest (suc n)
unfolding count_loop count_next count_body count_normal
mark-step rest n = refl

row-steps :
    (xs rest : Bytes) (n : ℕ)
    → (from_count (40 ∷ xs) n ≡ from_count xs n)
      × (from_count (63 ∷ 41 ∷ rest) n ≡ from_count rest (suc n))
      × (from_count [] n ≡ n)
unfolding count_loop count_next count_body count_normal
row-steps xs rest n = (refl, refl, refl)

marks-scan :
    (m : ℕ) (rest : Bytes) (n : ℕ) → from_count (marks m ++ rest) n ≡ from_count rest (m + n)
marks-scan zero rest n = ap (from_count rest) (omega arith)
marks-scan (suc m) rest n =
    mark-step (marks m ++ rest) n ∙ marks-scan m rest (suc n) ∙ ap (from_count rest) (omega arith)

row-scan :
    (m : ℕ) (rest : Bytes) (n : ℕ)
    → from_count ((40 ∷ marks m ++ 63 ∷ 41 ∷ []) ++ rest) n ≡ from_count rest (n + suc m)
row-scan m rest n =
    ap (λ t. from_count (40 ∷ t) n) (append_assoc (marks m) (63 ∷ 41 ∷ []) rest)
    ∙ (row-steps (marks m ++ 63 ∷ 41 ∷ rest) rest n).0
    ∙ marks-scan m (63 ∷ 41 ∷ rest) n
    ∙ (row-steps [] rest (m + n)).1
    ∙ ap (from_count rest) (omega arith)

-- `k` rows of `suc m` placeholders.
rows-scan :
    (k m : ℕ) (n : ℕ)
    → from_count (join (replicate k (40 ∷ marks m ++ 63 ∷ 41 ∷ []))) n ≡ n + k * suc m
rows-scan zero m n = (row-steps [] [] n).2 ∙ omega arith
rows-scan (suc zero) m n =
    ap (λ t. from_count t n) (sym (append-nil (40 ∷ marks m ++ 63 ∷ 41 ∷ [])))
    ∙ row-scan m [] n
    ∙ (row-steps [] [] (n + suc m)).2
    ∙ omega arith
rows-scan (suc (suc k)) m n =
    let row = 40 ∷ marks m ++ 63 ∷ 41 ∷ [] in
    row-scan m (44 ∷ 32 ∷ join (row ∷ replicate k row)) n
    ∙ comma (join (row ∷ replicate k row)) (n + suc m)
    ∙ rows-scan (suc k) m (n + suc m)
    ∙ more (suc m)
  where
    more : (w : ℕ) → n + w + suc k * w ≡ n + suc (suc k) * w
    more w = omega (arith, suc-mul (suc k) w)

words-scan :
    (rest : Bytes)
    → (from_count (codes "INSERT INTO " ++ rest) 0 ≡ from_count rest 0)
      × (from_count (codes " (" ++ rest) 0 ≡ from_count rest 0)
      × (from_count (codes ") VALUES " ++ rest) 0 ≡ from_count rest 0)
unfolding count_loop count_next count_body count_normal
words-scan rest = (refl, refl, refl)

query-scan :
    (table : Bytes) (names : List Bytes) (placeholders : Bytes)
    → count_placeholders (insert_query table names placeholders) ≡ from_count placeholders 0
unfolding count_placeholders insert_query quote_ident_list
query-scan table names placeholders =
    let values = codes ") VALUES " ++ placeholders in
    let columns = codes " (" ++ (join (map quote_ident names) ++ values) in
    (words-scan (quote_ident table ++ columns)).0
    ∙ ident-scan table columns 0
    ∙ (words-scan (join (map quote_ident names) ++ values)).1
    ∙ list-scan names values 0
    ∙ (words-scan placeholders).2

-- Each statement of a bulk insert has as many placeholders as values: whatever bytes the names of the table
-- and of the columns have, quotes and question marks included, the scan for placeholders counts
-- exactly one for each column of each of the k rows.
pub count_placeholders-insert_query :
    (table : Bytes) (column : Bytes) (columns : List Bytes) (k : ℕ) (row : Bytes)
    → placeholder_row (length (column ∷ columns)) ≡ ok row
    → count_placeholders (insert_query table (column ∷ columns) (join (replicate k row)))
      ≡ k * length (column ∷ columns)
unfolding placeholder_row
count_placeholders-insert_query table column columns k row h =
    let same : 40 ∷ marks (length columns) ++ 63 ∷ 41 ∷ [] ≡ row = ok-inj h in
    query-scan table (column ∷ columns) (join (replicate k row))
    ∙ ap (λ r. from_count (join (replicate k r)) 0) (sym same)
    ∙ rows-scan k (length columns) 0
    ∙ omega arith
  where
    ok-inj : {a b : Bytes} → ok a ≡ ok b → a ≡ b
    ok-inj e = cc
