-- ===== src/Common/Results.antt =====
-- What a Go function may answer: a value, an `error`, a runtime panic, and, which is no Go
-- answer, the end of the fuel of a loop.
use Prim.Native.Nat.{ℕ}
use Prim.Native.String.{String}
use mathlib.Core.Path.{◌≡◌, refl}
use mathlib.Core.Logic.{◌⊎◌, inl, inr}
use mathlib.Core.Bool.{Bool, true, false}
use mathlib.Core.List.{List}
use obconnector_go.Common.Tests.{if◌then◌else◌}

-- `eof`, `unexpected_eof` and `bad_conn` are io.EOF, io.ErrUnexpectedEOF and driver.ErrBadConn;
-- `net_error` is any error that is a net.Error, net.ErrClosed or os.ErrDeadlineExceeded;
-- `message` is an error made of text alone, of which only the format is kept;
-- `wrap` is an error whose format wraps another with %w, `wrap_two` one that wraps two.
pub data Error : Type 0 where
  eof unexpected_eof bad_conn net_error malformed_length_encoded_integer : Error
  seq_error : ℕ → ℕ → Error
  server_error : ℕ → List ℕ → List ℕ → Error
  message : String → Error
  wrap : String → Error → Error
  wrap_two : String → Error → Error → Error

pub data Outcome {ℓ} (A : Type ℓ) : Type ℓ where
  ok : A → Outcome A
  err : Error → Outcome A
  panic : Outcome A
  stuck : Outcome A

-- The next step runs on a value alone: anything else is the answer of the whole.
module _ {ℓ κ} {A : Type ℓ} {B : Type κ} where
  infixl 5 ◌>>=◌
  abbrev pub ◌>>=◌ : Outcome A → (A → Outcome B) → Outcome B
  panic >>= next = panic
  stuck >>= next = stuck
  err failure >>= next = err failure
  ok value >>= next = next value

  -- What led to a value.
  pub >>=-eq-ok :
      (first : Outcome A) (next : A → Outcome B) {result : B}
      → (first >>= next) ≡ ok result
      → (value : A) × (first ≡ ok value) × (next value ≡ ok result)
  >>=-eq-ok panic next same = cc
  >>=-eq-ok stuck next same = cc
  >>=-eq-ok (err failure) next same = cc
  >>=-eq-ok (ok value) next same = (value, refl, same)

infixl 5 ◌>>◌
abbrev pub ◌>>◌ {ℓ} : {A : Type ℓ} → Outcome (Unit {0}) → Outcome A → Outcome A
step >> rest = step >>= λ done. rest

-- `if !test { return failure }`
abbrev pub guard : Bool → Error → Outcome (Unit {0})
guard test failure = if test then ok tt else err failure

-- What a check and the rest behind it say when they answer with a value.
pub guard-ok {ℓ} :
    {A : Type ℓ} (test : Bool) (e : Error) (rest : Outcome A) {a : A}
    → (guard test e >> rest) ≡ ok a
    → (test ≡ true) × (rest ≡ ok a)
guard-ok true e rest h = (refl, h)
guard-ok false e rest h = cc

pub >>-ok {ℓ} :
    {A : Type ℓ} (first : Outcome (Unit {0})) (rest : Outcome A) {a : A}
    → (first >> rest) ≡ ok a
    → (first ≡ ok tt) × (rest ≡ ok a)
>>-ok (ok tt) rest h = (refl, h)
>>-ok (err e) rest h = absurd cc
>>-ok panic rest h = absurd cc
>>-ok stuck rest h = absurd cc

-- Whether the answer is one that the caller gets: a value or an error.
abbrev pub Answers {ℓ} : {A : Type ℓ} → Outcome A → Type 0
Answers (ok a) = Unit
Answers (err e) = Unit
Answers panic = ⊥
Answers stuck = ⊥

pub Answers-bind {ℓ κ} :
    {A : Type ℓ} {B : Type κ} (m : Outcome A) (f : A → Outcome B)
    → Answers m
    → ((a : A) → m ≡ ok a → Answers (f a))
    → Answers (m >>= f)
Answers-bind (ok a) f h k = k a refl
Answers-bind (err e) f h k = tt
Answers-bind panic f h k = h
Answers-bind stuck f h k = h

pub Answers-cases {ℓ} :
    {A : Type ℓ} (m : Outcome A) → Answers m → ((a : A) × (m ≡ ok a)) ⊎ ((e : Error) × (m ≡ err e))
Answers-cases (ok a) h = inl (a, refl)
Answers-cases (err e) h = inr (e, refl)
Answers-cases panic h = absurd h
Answers-cases stuck h = absurd h

-- Where there is a value `P` holds of it, and fuel does not run out.
abbrev pub Yields {ℓ} : {A : Type ℓ} → (A → Type 0) → Outcome A → Type 0
Yields P (ok a) = P a
Yields P (err e) = Unit
Yields P panic = Unit
Yields P stuck = ⊥

pub Yields-bind {ℓ κ} :
    {A : Type ℓ} {B : Type κ} (P : A → Type 0) (Q : B → Type 0) (m : Outcome A) (f : A → Outcome B)
    → Yields P m
    → ((a : A) → P a → Yields Q (f a))
    → Yields Q (m >>= f)
Yields-bind P Q (ok a) f h k = k a h
Yields-bind P Q (err e) f h k = tt
Yields-bind P Q panic f h k = tt
Yields-bind P Q stuck f h k = h

pub if-Yields {ℓ} :
    {A : Type ℓ} (P : A → Type 0) (t : Bool) (r s : Outcome A)
    → Yields P r
    → Yields P s
    → Yields P (if t then r else s)
if-Yields P true r s h k = h
if-Yields P false r s h k = k
