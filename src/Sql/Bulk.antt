-- ===== src/Sql/Bulk.antt =====
-- bulk.go: inserting many rows, natively or by statements of up to a thousand rows.
pub mod Placeholders
pub mod Chunks
use obconnector_go.Common.{
  ℕ, zero, suc, ◌+◌, ◌-◌, ◌*◌, ◌/◌, ◌%◌, ◌^◌, ◌≤◌, ◌<◌, min, max, bit_and, bit_or, bit_xor, String,
  ◌≡◌, refl, sym, ap, ap₂, ◌∙◌, subst, ◌≢◌, ◌↔◌, ◌⊎◌, inl, inr, Bool, true, false, not, ◌&&◌, ◌||◌,
  Option, none, some, List, [], ◌∷◌, ◌++◌, map, reverse, append-nil, append_assoc, arith, ltb, leb,
  ◌==◌, if◌then◌else◌, ltb→lt, lt→ltb, ltb-false, ltb-false→le, leb→le, le→leb, leb-false,
  leb-false→lt, ==_refl, ==_iff, tests, Bool-cases, Option-cases, length, get_or, take, drop,
  replicate, All, slice, length-append, length-take, length-drop, take-append-drop, take_all,
  drop_all, take-append, drop-append, All-append, Error, eof, unexpected_eof, bad_conn, net_error,
  malformed_length_encoded_integer, seq_error, server_error, message, wrap, wrap_two, Outcome, ok,
  err, panic, stuck, guard, guard-ok, >>-ok, Answers, >>=-eq-ok, Answers-bind, Answers-cases,
  Yields, Yields-bind, if-Yields,
}
use obconnector_go.Common.State.{
  Method, return, fail, lift, gets, modify, check, after, ◌>>=◌, ◌>>◌, Ensures, Ensures-bind,
  Ensures-lift, Answers-of_Ensures,
}
use obconnector_go.Common.Bytes.{Bytes, codes}

abbrev pub is_alpha : ℕ → Bool
is_alpha c = (leb 65 c && leb c 90) || (leb 97 c && leb c 122)

abbrev pub is_alnum : ℕ → Bool
is_alnum c = is_alpha c || (leb 48 c && leb c 57)

-- The loop over the bytes behind the first one.
abbrev pub is_ident_rest : Bytes → Bool
is_ident_rest [] = true
is_ident_rest (c ∷ cs) = (is_alnum c || c == 95) && is_ident_rest cs

unfoldable pub is_simple_ident : Bytes → Bool
is_simple_ident [] = false
is_simple_ident (c ∷ cs) = is_alpha c && is_ident_rest cs

-- `strings.ReplaceAll(name, "\"", "\"\"")`
unfoldable pub double_marks : Bytes → Bytes
double_marks [] = []
double_marks (c ∷ cs) = let rest = double_marks cs in if c == 34 then 34 ∷ 34 ∷ rest else c ∷ rest

unfoldable pub quote_ident : Bytes → Bytes
unfolding is_simple_ident double_marks
quote_ident name = if is_simple_ident name then name else (34 ∷ double_marks name) ++ 34 ∷ []

-- `strings.Join(parts, ", ")`
abbrev pub join : List Bytes → Bytes
join [] = []
join (part ∷ []) = part
join (part ∷ next ∷ parts) = part ++ (44 ∷ 32 ∷ join (next ∷ parts))

unfoldable pub quote_ident_list : List Bytes → Bytes
unfolding quote_ident
quote_ident_list names = join (map quote_ident names)

-- `strings.Repeat("?, ", n)`
abbrev pub marks : ℕ → Bytes
marks zero = []
marks (suc n) = 63 ∷ 44 ∷ 32 ∷ marks n

-- `"(" + strings.Repeat("?, ", n-1) + "?)"`: Repeat panics for a negative count.
unfoldable pub placeholder_row : ℕ → Outcome Bytes
placeholder_row zero = panic
placeholder_row (suc n) = ok (40 ∷ marks n ++ 63 ∷ 41 ∷ [])

-- `fmt.Sprintf("INSERT INTO %s (%s) VALUES %s", ...)`
unfoldable pub insert_query : Bytes → List Bytes → Bytes → Bytes
unfolding quote_ident quote_ident_list
insert_query table columns placeholders =
    codes "INSERT INTO "
    ++ (quote_ident table
        ++ (codes " (" ++ (quote_ident_list columns ++ (codes ") VALUES " ++ placeholders))))

abbrev pub max_chunk_size : ℕ
max_chunk_size = 1000

-- `flattenedValues = append(flattenedValues, row...)`
abbrev pub flatten {ℓ} : {A : Type ℓ} → List (List A) → List A
flatten [] = []
flatten (row ∷ rows) = row ++ flatten rows

-- `exec` is `db.ExecContext` and the RowsAffected of its result; `native` is tryNativeBulkInsert behind its
-- statement, which goes through the pool's Conn and Raw.
module _ {S A : Type 0} (exec : Bytes → List A → Method S ℕ)
    (native : Bytes → List (List A) → Method S ℕ) where
  -- The statement of one chunk.
  unfoldable pub insert_chunk : Bytes → List Bytes → List (List A) → Method S ℕ
  unfolding placeholder_row insert_query
  insert_chunk table columns chunk = do
    row ← lift (placeholder_row (length columns))
    exec (insert_query table columns (join (replicate (length chunk) row))) (flatten chunk)

  -- The loop from a row on; each round takes at least one row.
  unfoldable pub rewrite_from : ℕ → Bytes → List Bytes → List (List A) → ℕ → Method S ℕ
  unfolding insert_chunk
  rewrite_from fuel table columns [] total = return total
  rewrite_from zero table columns (row ∷ rows) total = λ s. (stuck, s)
  rewrite_from (suc fuel) table columns (row ∷ rows) total = do
    affected ← insert_chunk table columns (take max_chunk_size (row ∷ rows))
    rewrite_from fuel table columns (drop max_chunk_size (row ∷ rows)) (total + affected)

  unfoldable pub bulk_insert_rewrite : Bytes → List Bytes → List (List A) → Method S ℕ
  unfolding placeholder_row rewrite_from
  bulk_insert_rewrite table columns rows = do
    row ← lift (placeholder_row (length columns))
    rewrite_from (length rows) table columns rows 0

  unfoldable pub try_native_bulk_insert : Bytes → List Bytes → List (List A) → Method S ℕ
  unfolding placeholder_row insert_query
  try_native_bulk_insert table columns rows = do
    row ← lift (placeholder_row (length columns))
    native (insert_query table columns row) rows

  -- The answer of the rewriting behind an error of the native insert.
  abbrev pub fallback : Error → Outcome ℕ × S → Outcome ℕ × S
  fallback e (ok n, s) = (ok n, s)
  fallback e (err f, s) =
      (err (wrap "native bulk insert failed: %w; rewrite fallback also failed: %v" e), s)
  fallback e (panic, s) = (panic, s)
  fallback e (stuck, s) = (stuck, s)

  abbrev pub or_rewrite : Method S ℕ → Outcome ℕ × S → Outcome ℕ × S
  or_rewrite rewrite (ok n, s) = (ok n, s)
  or_rewrite rewrite (err e, s) = fallback e (rewrite s)
  or_rewrite rewrite (panic, s) = (panic, s)
  or_rewrite rewrite (stuck, s) = (stuck, s)

  unfoldable pub bulk_insert : Bytes → List Bytes → List (List A) → Method S ℕ
  unfolding try_native_bulk_insert bulk_insert_rewrite
  bulk_insert table columns [] s = (ok 0, s)
  bulk_insert table columns (row ∷ rows) s =
      or_rewrite (bulk_insert_rewrite table columns (row ∷ rows))
        (try_native_bulk_insert table columns (row ∷ rows) s)
