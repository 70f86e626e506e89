-- ===== src/Session/TextRow/Integers.antt =====
-- Integers of the text protocol.
use obconnector_go.Common.{
  ℕ, zero, suc, ◌+◌, ◌-◌, ◌*◌, ◌/◌, ◌%◌, ◌^◌, ◌≤◌, ◌<◌, ◌≡◌, refl, sym, ap, ◌∙◌, subst, inl, inr,
  true, false, none, some, [], ◌∷◌, ◌++◌, arith, ltb, ◌==◌, ltb→lt, lt→ltb, ltb-false, ltb-false→le,
  Bool-cases, length, length-append,
}
use obconnector_go.Common.Bytes.{Bytes}
use obconnector_go.Common.Int.{ℤ, pos, negsuc, pos_part, neg_part}
use obconnector_go.Sql.Params.{decimal_from, format_int}
use obconnector_go.Sql.TimeZone.{is_digit}
use obconnector_go.Session.TextRow.{digits_from, in_range, with_sign, parse_int}
use native.Mathlib.Nat.{pow-suc}

digit-first :
    (m x : ℕ) (xs : Bytes) {n : ℕ}
    → digits_from m (x ∷ xs) ≡ some n
    → (is_digit x ≡ true) × (digits_from (10 * m + (x - 48)) xs ≡ some n)
digit-first m x xs {n} e = elim (Bool-cases (is_digit x)) [
  | inl f ↦ (f, rw f at e)
  | inr f ↦ absurd (none-some (rw f at e))
]
  where
    none-some : none ≡ some n → ⊥
    none-some h = cc

digit-more :
    (m x : ℕ) (xs : Bytes) {n : ℕ}
    → is_digit x ≡ true
    → digits_from (10 * m + (x - 48)) xs ≡ some n
    → digits_from m (x ∷ xs) ≡ some n
digit-more m x xs f e = rw f e

-- One digit more.
digits_from-append :
    (m n d : ℕ) (xs : Bytes)
    → d < 10
    → digits_from m xs ≡ some n
    → digits_from m (xs ++ (48 + d) ∷ []) ≡ some (10 * n + d)
digits_from-append m n d [] h e = ground arith
digits_from-append m n d (x ∷ xs) h e =
    let (f, rest) = digit-first m x xs e in
    digit-more m x (xs ++ (48 + d) ∷ []) f (digits_from-append (10 * m + (x - 48)) n d xs h rest)

decimal-small : (fuel n : ℕ) → n < 10 → decimal_from (suc fuel) n ≡ (48 + n) ∷ []
unfolding decimal_from
decimal-small fuel n h = rw (lt→ltb n 10 h, decimal_from) refl

decimal-large :
    (fuel n : ℕ)
    → 10 ≤ n
    → decimal_from (suc fuel) n ≡ decimal_from fuel (n / 10) ++ (48 + n % 10) ∷ []
unfolding decimal_from
decimal-large fuel n h = rw (ltb-false n 10 h, decimal_from) refl

no-digits : (n : ℕ) → n < 1 → digits_from 0 (decimal_from 0 n) ≡ some n
unfolding decimal_from
no-digits n h = ground arith

digits-decimal : (fuel n : ℕ) → n < 10 ^ fuel → digits_from 0 (decimal_from fuel n) ≡ some n
digits-decimal zero n h = no-digits n h
digits-decimal (suc fuel) n h = elim (Bool-cases (ltb n 10)) [
  | inl e ↦
      subst (λ xs. digits_from 0 xs ≡ some n) (sym (decimal-small fuel n (ltb→lt n 10 e)))
        (digits_from-append 0 0 n [] (ltb→lt n 10 e) refl ∙ ap some (omega arith))
  | inr e ↦
      subst (λ xs. digits_from 0 xs ≡ some n) (sym (decimal-large fuel n (ltb-false→le n 10 e)))
        (digits_from-append 0 (n / 10) (n % 10) (decimal_from fuel (n / 10)) (omega arith)
            (digits-decimal fuel (n / 10) (omega (arith, pow-suc 10 fuel)))
          ∙ ap some (omega arith))
]

decimal-length : (fuel n : ℕ) → 0 < length (decimal_from (suc fuel) n)
decimal-length fuel n = elim (Bool-cases (ltb n 10)) [
  | inl e ↦ subst (λ xs. 0 < length xs) (sym (decimal-small fuel n (ltb→lt n 10 e))) (omega arith)
  | inr e ↦
      subst (λ xs. 0 < length xs) (sym (decimal-large fuel n (ltb-false→le n 10 e)))
        (omega (arith, length-append (decimal_from fuel (n / 10)) ((48 + n % 10) ∷ [])))
]

-- What ParseInt makes of digits.
parse_int-digits :
    (xs : Bytes) (n : ℕ)
    → 0 < length xs
    → digits_from 0 xs ≡ some n
    → parse_int xs ≡ in_range false n
unfolding parse_int
parse_int-digits [] n h e = absurd (omega arith)
parse_int-digits (x ∷ xs) n h e =
    let (f, _) = digit-first 0 x xs e in
    let minus : (x == 45) ≡ false = ground arith in
    let plus : (x == 43) ≡ false = ground arith in rw (minus, plus) (ap (with_sign false) e)

parse_int-minus :
    (xs : Bytes) (n : ℕ)
    → 0 < length xs
    → digits_from 0 xs ≡ some n
    → parse_int (45 ∷ xs) ≡ in_range true n
unfolding parse_int
parse_int-minus [] n h e = absurd (omega arith)
parse_int-minus (x ∷ xs) n h e = ap (with_sign true) e

-- ParseInt undoes FormatInt: the text that FormatInt makes of an int64 reads as the same number.
pub parse_int-format_int :
    (v : ℤ) → pos_part v < 2 ^ 63 → neg_part v ≤ 2 ^ 63 → parse_int (format_int v) ≡ some v
unfolding format_int
parse_int-format_int (pos n) h k =
    parse_int-digits (decimal_from 20 n) n (decimal-length 19 n) (digits-decimal 20 n (omega arith))
    ∙ ground arith
parse_int-format_int (negsuc n) h k =
    ap parse_int sign
    ∙ parse_int-minus (decimal_from 20 (suc n)) (suc n) (decimal-length 19 (suc n))
        (digits-decimal 20 (suc n) (omega arith))
    ∙ in_range-minus
  where
    sign : format_int (negsuc n) ≡ 45 ∷ decimal_from 20 (suc n)
    sign = ground arith

    in_range-minus : in_range true (suc n) ≡ some (negsuc n)
    in_range-minus = ground arith
