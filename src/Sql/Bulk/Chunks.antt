-- ===== src/Sql/Bulk/Chunks.antt =====
-- The statements of a bulk insert together send each value once, in order.
use obconnector_go.Common.{
  ℕ, zero, suc, ◌+◌, ◌*◌, ◌≤◌, ◌≡◌, refl, sym, ap, ◌∙◌, subst, List, [], ◌∷◌, ◌++◌, append-nil,
  append_assoc, arith, length, take, drop, replicate, All, length-append, length-take, length-drop,
  take-append-drop, Outcome, ok, err, panic, stuck, Yields,
}
use obconnector_go.Common.State.{Method, after}
use obconnector_go.Common.Bytes.{Bytes}
use obconnector_go.Sql.Params.{count_placeholders}
use obconnector_go.Sql.Bulk.{
  join, marks, placeholder_row, insert_query, max_chunk_size, flatten, insert_chunk, rewrite_from,
  bulk_insert_rewrite,
}
use obconnector_go.Sql.Bulk.Placeholders.{count_placeholders-insert_query}
use native.Mathlib.Nat.{suc-mul, mul-le-mul_right}

-- A statement and its arguments.
abbrev pub Call : Type 0 → Type 0
Call A = Bytes × List A

abbrev pub arguments : {A : Type 0} → List (Call A) → List A
arguments [] = []
arguments (c ∷ calls) = c.1 ++ arguments calls

-- A statement with a placeholder for each argument, and of no more than a thousand rows.
abbrev pub Matches : {A : Type 0} → ℕ → Call A → Type 0
Matches width c = (count_placeholders c.0 ≡ length c.1) × (length c.1 ≤ max_chunk_size * width)

-- An exec that keeps a log of its calls.
abbrev pub logged :
    {S A : Type 0} → (Bytes → List A → Method S ℕ) → Bytes → List A → Method (S × List (Call A)) ℕ
logged exec query args (s, log) =
    let (r, s') = exec query args s in (r, (s', log ++ (query, args) ∷ []))

flatten-append :
    {A : Type 0} (xs ys : List (List A)) → flatten (xs ++ ys) ≡ flatten xs ++ flatten ys
flatten-append [] ys = refl
flatten-append (x ∷ xs) ys =
    rw (flatten-append xs ys) (sym (append_assoc x (flatten xs) (flatten ys)))

flatten-length :
    {A : Type 0} (w : ℕ) (rows : List (List A))
    → All (λ (r : List A). length r ≡ w) rows
    → length (flatten rows) ≡ length rows * w
flatten-length w [] h = omega arith
flatten-length w (r ∷ rows) (e, h) =
    omega (arith, length-append r (flatten rows), flatten-length w rows h, suc-mul (length rows) w)

All-taken : {A : Type 0} (P : A → Type 0) (n : ℕ) (xs : List A) → All P xs → All P (take n xs)
All-taken P zero xs h = tt
All-taken P (suc n) [] h = tt
All-taken P (suc n) (x ∷ xs) (p, h) = (p, All-taken P n xs h)

All-dropped : {A : Type 0} (P : A → Type 0) (n : ℕ) (xs : List A) → All P xs → All P (drop n xs)
All-dropped P zero xs h = h
All-dropped P (suc n) [] h = tt
All-dropped P (suc n) (x ∷ xs) (p, h) = All-dropped P n xs h

module _ {S A : Type 0} (width : ℕ) where
  -- After a value, the log has grown by statements whose arguments are the given ones; fuel does not run out.
  abbrev pub Sends : List A → List (Call A) → Outcome ℕ × (S × List (Call A)) → Type 0
  Sends args log (ok n, t) =
      (calls : List (Call A)) × (t.1 ≡ log ++ calls)
      × (arguments calls ≡ args)
      × All (Matches width) calls
  Sends args log (err e, t) = Unit
  Sends args log (panic, t) = Unit
  Sends args log (stuck, t) = ⊥

  -- One statement, and then the others.
  first-Sends :
      (call : Call A) (args : List A) (log : List (Call A)) (r : Outcome ℕ) (s : S)
      (f : ℕ → Method (S × List (Call A)) ℕ)
      → Matches width call
      → Yields (λ _. Unit) r
      → ((n : ℕ) → Sends args (log ++ call ∷ []) (f n (s, log ++ call ∷ [])))
      → Sends (call.1 ++ args) log (after r f (s, log ++ call ∷ []))
  first-Sends call args log (ok n) s f m y h = prefixed (f n (s, log ++ call ∷ [])) (h n)
    where
      prefixed :
          (t : Outcome ℕ × (S × List (Call A)))
          → Sends args (log ++ call ∷ []) t
          → Sends (call.1 ++ args) log t
      prefixed (ok k, t) (calls, e, a, all) = (
        call ∷ calls,
        e ∙ append_assoc log (call ∷ []) calls,
        ap (λ xs. call.1 ++ xs) a,
        (m, all),
      )
      prefixed (err e, t) k = tt
      prefixed (panic, t) k = tt
      prefixed (stuck, t) k = k
  first-Sends call args log (err e) s f m y h = tt
  first-Sends call args log panic s f m y h = tt
  first-Sends call args log stuck s f m y h = y

  module _ (exec : Bytes → List A → Method S ℕ)
      (native : Bytes → List (List A) → Method (S × List (Call A)) ℕ) (table : Bytes)
      (column : Bytes) (columns : List Bytes)
      (answers : (query : Bytes) (args : List A) (s : S) → Yields (λ _. Unit) (exec query args s).0)
      (fits : length (column ∷ columns) ≡ width) where
    abbrev row_bytes : Bytes
    row_bytes = 40 ∷ marks (length columns) ++ 63 ∷ 41 ∷ []

    abbrev call_of : List (List A) → Call A
    call_of chunk = (
      insert_query table (column ∷ columns) (join (replicate (length chunk) row_bytes)),
      flatten chunk,
    )

    call-Matches :
        (chunk : List (List A))
        → length chunk ≤ max_chunk_size
        → All (λ (r : List A). length r ≡ width) chunk
        → Matches width (call_of chunk)
    unfolding placeholder_row
    call-Matches chunk l h =
        let counted =
          count_placeholders-insert_query table column columns (length chunk) row_bytes refl in
        let listed = flatten-length width chunk h in
        (
          counted ∙ ap (λ (w : ℕ). length chunk * w) fits ∙ sym listed,
          rw listed (mul-le-mul_right width l),
        )

    rewrite-Sends :
        (fuel : ℕ) (rows : List (List A)) (total : ℕ) (s : S) (log : List (Call A))
        → length rows ≤ fuel
        → All (λ (r : List A). length r ≡ width) rows
        → Sends
            (flatten rows)
            log
            (rewrite_from (logged exec) native fuel table (column ∷ columns) rows total (s, log))
    unfolding rewrite_from insert_chunk placeholder_row
    rewrite-Sends fuel [] total s log l h = ([], sym (append-nil log), refl, tt)
    rewrite-Sends zero (row ∷ rows) total s log l h = absurd (omega arith)
    rewrite-Sends (suc fuel) (row ∷ rows) total s log l h =
        let chunk = take max_chunk_size (row ∷ rows) in
        let rest = drop max_chunk_size (row ∷ rows) in
        let all =
          sym (flatten-append chunk rest)
          ∙ ap flatten (take-append-drop max_chunk_size (row ∷ rows)) in
        subst
          (λ xs. Sends xs log (
            rewrite_from (logged exec) native (suc fuel) table (column ∷ columns) (row ∷ rows) total
              (s, log)))
          all
          (first-Sends (call_of chunk) (flatten rest) log
            (exec (call_of chunk).0 (flatten chunk) s).0
            (exec (call_of chunk).0 (flatten chunk) s).1
            (λ n. rewrite_from (logged exec) native fuel table (column ∷ columns) rest (total + n))
            (call-Matches chunk (omega (arith, length-take max_chunk_size (row ∷ rows)))
              (All-taken _ max_chunk_size (row ∷ rows) h))
            (answers (call_of chunk).0 (flatten chunk) s)
            λ n.
              rewrite-Sends fuel rest (total + n) (exec (call_of chunk).0 (flatten chunk) s).1
                (log ++ call_of chunk ∷ []) (omega (arith, length-drop max_chunk_size (row ∷ rows)))
                (All-dropped _ max_chunk_size (row ∷ rows) h))

    -- The rewritten bulk insert sends each value once, in order: where each row has a value for each column, of which
    -- there is at least one, and ExecContext always answers, then the loop over the chunks comes to an
    -- end, and when it succeeds, the arguments of its statements, one after the other, are the values
    -- of the rows, and each statement has as many placeholders as arguments and at most a thousand rows.
    pub bulk_insert_rewrite-Sends :
        (rows : List (List A)) (s : S) (log : List (Call A))
        → All (λ (r : List A). length r ≡ width) rows
        → Sends
            (flatten rows)
            log
            (bulk_insert_rewrite (logged exec) native table (column ∷ columns) rows (s, log))
    unfolding bulk_insert_rewrite placeholder_row
    bulk_insert_rewrite-Sends rows s log h =
        rewrite-Sends (length rows) rows 0 s log (omega arith) h
