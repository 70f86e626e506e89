-- ===== src/Sql/Params/Arguments.antt =====
-- How the number of arguments and the number of placeholders decide the outcome.
use obconnector_go.Common.{
  ℕ, suc, ◌+◌, ◌<◌, ◌≡◌, refl, ◌⊎◌, inl, inr, Bool, true, false, List, [], ◌∷◌, ◌++◌, arith, ◌==◌,
  Bool-cases, length, All, message, Outcome, ok, err, panic, stuck, ◌>>=◌,
}
use obconnector_go.Common.Bytes.{Bytes}
use obconnector_go.Protocol.Calendar.{Moment}
use obconnector_go.Sql.Params.{
  SqlState, sql_normal, sql_single_quote, sql_double_quote, sql_backtick, sql_line_comment,
  sql_block_comment, CountLoop, count_normal, count_body, count_next, count_loop,
  count_placeholders, NamedValue, literal, InterpolateLoop, put_argument, interpolate_normal,
  interpolate_body, interpolate_next, interpolate_loop, interpolate_params,
}

-- The scan of countPlaceholders goes from state to state as that of interpolateParams does.
Follows : CountLoop → List NamedValue → Outcome InterpolateLoop → Type 0
Follows (st, skip, n) args (ok (st', skip', args', out)) =
    (st ≡ st') × (skip ≡ skip') × (args ≡ args')
Follows l args (err e) = ⊥
Follows l args panic = ⊥
Follows l args stuck = ⊥

module _ (format_float : ℕ → Bytes) (format_time : Moment → Bytes) where
  normal-Follows :
      (ch : ℕ) (rest : Bytes) (n : ℕ) (args : List NamedValue) (out : Bytes)
      → (ch == 63) ≡ false
      → ((count_normal ch rest n).2 ≡ n)
        × Follows
            (count_normal ch rest n)
            args
            (interpolate_normal format_float format_time ch rest args out)
  unfolding count_normal interpolate_normal Follows
  normal-Follows ch rest n args out h = ground arith

  normal-hole :
      (ch : ℕ) (rest : Bytes) (n : ℕ) (args : List NamedValue) (out : Bytes)
      → (ch == 63) ≡ true
      → (count_normal ch rest n ≡ (sql_normal, false, suc n))
        × (interpolate_normal format_float format_time ch rest args out
            ≡ put_argument format_float format_time args out)
  unfolding count_normal interpolate_normal
  normal-hole ch rest n args out h = ground arith

  body-Follows :
      (st : SqlState) (ch : ℕ) (rest : Bytes) (n : ℕ) (args : List NamedValue) (out : Bytes)
      → ((count_body st ch rest n ≡ (sql_normal, false, suc n))
          × (interpolate_body format_float format_time st ch rest args out
              ≡ put_argument format_float format_time args out))
        ⊎ (((count_body st ch rest n).2 ≡ n)
            × Follows
                (count_body st ch rest n)
                args
                (interpolate_body format_float format_time st ch rest args out))
  unfolding count_body interpolate_body Follows
  body-Follows sql_normal ch rest n args out = elim (Bool-cases (ch == 63)) [
    | inl e ↦ inl (normal-hole ch rest n args out e)
    | inr e ↦ inr (normal-Follows ch rest n args out e)
  ]
  body-Follows sql_single_quote ch rest n args out = inr (ground arith)
  body-Follows sql_double_quote ch rest n args out = inr (ground arith)
  body-Follows sql_backtick ch rest n args out = inr (ground arith)
  body-Follows sql_line_comment ch rest n args out = inr (ground arith)
  body-Follows sql_block_comment ch rest n args out = inr (ground arith)

module _ (format_float : ℕ → Bytes) (format_time : Moment → Bytes) where
  -- Every argument has a type that `literal` supports, and no name.
  abbrev pub Renders : List NamedValue → Type 0
  Renders args = All (λ a. (lit : Bytes) × (literal format_float format_time a ≡ ok lit)) args

-- What the loop of interpolateParams answers, from the arguments left and the placeholders ahead.
abbrev pub Decided : ℕ → ℕ → Outcome Bytes → Type 0
Decided given ahead r =
    ((given ≡ ahead) × ((text : Bytes) × (r ≡ ok text)))
    ⊎ (((given < ahead) × (r ≡ err (message "oceanbase: not enough query arguments")))
        ⊎ ((ahead < given) × (r ≡ err (message "oceanbase: too many query arguments"))))

Decided-suc :
    (given ahead : ℕ) (r : Outcome Bytes)
    → Decided given ahead r
    → Decided (suc given) (1 + ahead) r
Decided-suc given ahead r (inl (e, t)) = inl (omega arith, t)
Decided-suc given ahead r (inr (inl (lt, t))) = inr (inl (omega arith, t))
Decided-suc given ahead r (inr (inr (lt, t))) = inr (inr (omega arith, t))

-- The loop variables of a scan whose count starts at n instead of 0.
Ahead : ℕ → CountLoop → CountLoop → Type 0
Ahead n (st, skip, a) (st', skip', b) = (st ≡ st') × (skip ≡ skip') × (a ≡ n + b)

count_body-Ahead :
    (st : SqlState) (ch : ℕ) (rest : Bytes) (n a : ℕ)
    → Ahead n (count_body st ch rest (n + a)) (count_body st ch rest a)
unfolding count_body count_normal Ahead
count_body-Ahead sql_normal ch rest n a = ground arith
count_body-Ahead sql_single_quote ch rest n a = ground arith
count_body-Ahead sql_double_quote ch rest n a = ground arith
count_body-Ahead sql_backtick ch rest n a = ground arith
count_body-Ahead sql_line_comment ch rest n a = ground arith
count_body-Ahead sql_block_comment ch rest n a = ground arith

count_next-Ahead :
    (n : ℕ) (ch : ℕ) (rest : Bytes) (l l' : CountLoop)
    → Ahead n l l'
    → Ahead n (count_next l ch rest) (count_next l' ch rest)
unfolding count_next Ahead
count_next-Ahead n ch rest (st, true, a) (st', skip', b) (p, q, r) = rw (← q) (p, refl, r)
count_next-Ahead n ch rest (st, false, a) (st', skip', b) (p, q, r) =
    rw (← q) (rw (← p) (rw r (count_body-Ahead st ch rest n b)))

count_loop-Ahead :
    (n : ℕ) (q : Bytes) (l l' : CountLoop) → Ahead n l l' → count_loop q l ≡ n + count_loop q l'
unfolding count_loop Ahead
count_loop-Ahead n [] (st, skip, a) (st', skip', b) (p, q, r) = r
count_loop-Ahead n (ch ∷ rest) l l' h =
    count_loop-Ahead n rest (count_next l ch rest) (count_next l' ch rest)
      (count_next-Ahead n ch rest l l' h)

module _ (format_float : ℕ → Bytes) (format_time : Moment → Bytes) where
  abbrev loop : Bytes → InterpolateLoop → Outcome Bytes
  loop = interpolate_loop format_float format_time

  -- What holds of the rest of the text, for every state of the scan.
  abbrev Settled : Bytes → Type 0
  Settled q =
      (st : SqlState) (skip : Bool) (args : List NamedValue) (out : Bytes)
      → Renders format_float format_time args
      → Decided (length args) (count_loop q (st, skip, 0)) (loop q (st, skip, args, out))

  at_hole :
      (rest : Bytes) (args : List NamedValue) (out : Bytes)
      → Renders format_float format_time args
      → Settled rest
      → Decided
          (length args)
          (count_loop rest (sql_normal, false, 1))
          (put_argument format_float format_time args out >>= loop rest)
  unfolding put_argument Ahead
  at_hole rest [] out h ih = inr (
      inl (
        omega (
          arith,
          count_loop-Ahead 1 rest (sql_normal, false, 1) (sql_normal, false, 0) (refl, refl, refl),
        ),
        refl,
      ))
  at_hole rest (a ∷ args) out ((lit, e), h) ih =
      rw (count_loop-Ahead 1 rest (sql_normal, false, 1) (sql_normal, false, 0) (refl, refl, refl))
        (rw e (Decided-suc _ _ _ (ih sql_normal false args (out ++ lit) h)))

  elsewhere :
      (rest : Bytes) (l : CountLoop) (args : List NamedValue) (r : Outcome InterpolateLoop)
      → Renders format_float format_time args
      → Settled rest
      → l.2 ≡ 0
      → Follows l args r
      → Decided (length args) (count_loop rest l) (r >>= loop rest)
  unfolding Follows
  elsewhere rest (st, skip, n) args (ok (st', skip', args', out)) h ih z (p, q, e) =
      rw (z, p, q, ← e) (ih st' skip' args out h)
  elsewhere rest (st, skip, n) args (err e) h ih z f = absurd f
  elsewhere rest (st, skip, n) args panic h ih z f = absurd f
  elsewhere rest (st, skip, n) args stuck h ih z f = absurd f

  decide : (q : Bytes) → Settled q
  unfolding count_loop interpolate_loop interpolate_next count_next
  decide [] st skip [] out h = inl (refl, (out, refl))
  decide [] st skip (arg ∷ args) out h = inr (inr (omega arith, refl))
  decide (ch ∷ rest) st true args out h = decide rest st false args out h
  decide (ch ∷ rest) st false args out h =
      elim (body-Follows format_float format_time st ch rest 0 args out) [
        | inl (c, i) ↦ rw (c, i) (at_hole rest args out h (decide rest))
        | inr (z, f) ↦ elsewhere rest _ args _ h (decide rest) z f
      ]

  -- Client-side interpolation is decided by counting: when every argument has a supported type and
  -- no name, interpolateParams answers with a text exactly when there are as many arguments as
  -- countPlaceholders counts placeholders, with the error "not enough query arguments" when there
  -- are fewer, and with "too many query arguments" when there are more.
  pub interpolate_params-Decided :
      (query : Bytes) (args : List NamedValue)
      → Renders format_float format_time args
      → Decided
          (length args)
          (count_placeholders query)
          (interpolate_params format_float format_time query args)
  unfolding count_placeholders interpolate_params
  interpolate_params-Decided query [] h = ground arith
  interpolate_params-Decided query (arg ∷ args) h = decide query sql_normal false (arg ∷ args) [] h
