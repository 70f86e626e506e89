-- ===== src/Common/State.antt =====
-- Methods of a Go object: the state goes in, the answer and the new state come out. An error
-- leaves behind whatever the method had changed before.
use mathlib.Core.Path.{◌≡◌, refl}
use mathlib.Core.Bool.{Bool, true, false}
use obconnector_go.Common.Results.{Answers, Error, Outcome, ok, err, panic, stuck}

abbrev pub Method {ℓ} : Type ℓ → Type 0 → Type ℓ
Method S A = S → Outcome A × S

module _ {ℓ} {S : Type ℓ} {A : Type 0} where
  abbrev pub return : A → S → Outcome A × S
  return a s = (ok a, s)

  abbrev pub fail : Error → S → Outcome A × S
  fail e s = (err e, s)

  abbrev pub lift : Outcome A → S → Outcome A × S
  lift r s = (r, s)

  abbrev pub gets : (S → A) → S → Outcome A × S
  gets f s = (ok (f s), s)

abbrev pub modify {ℓ} : {S : Type ℓ} → (S → S) → S → Outcome (Unit {0}) × S
modify f s = (ok tt, f s)

-- `if !test { return e }`
abbrev pub check {ℓ} : {S : Type ℓ} → Bool → Error → S → Outcome (Unit {0}) × S
check true e s = (ok tt, s)
check false e s = (err e, s)

module _ {ℓ} {S : Type ℓ} {A B : Type 0} where
  abbrev pub after : Outcome A → (A → S → Outcome B × S) → S → Outcome B × S
  after (ok a) f s = f a s
  after (err e) f s = (err e, s)
  after panic f s = (panic, s)
  after stuck f s = (stuck, s)

  infixl 5 ◌>>=◌
  abbrev pub ◌>>=◌ : (S → Outcome A × S) → (A → S → Outcome B × S) → S → Outcome B × S
  ◌>>=◌ m f s = let (r, s') = m s in after r f s'

module _ {ℓ} {S : Type ℓ} {B : Type 0} where
  infixl 5 ◌>>◌
  abbrev pub ◌>>◌ : (S → Outcome (Unit {0}) × S) → (S → Outcome B × S) → S → Outcome B × S
  ◌>>◌ m k = m >>= λ _. k

module _ {ℓ} {S : Type ℓ} {A : Type 0} where
  -- The method answers, and where it answers with a value `P` holds of it and of the new state.
  abbrev pub Ensures : (A → S → Type 0) → Outcome A × S → Type 0
  Ensures P (ok a, s) = P a s
  Ensures P (err e, s) = Unit
  Ensures P (panic, s) = ⊥
  Ensures P (stuck, s) = ⊥

module _ {ℓ} {S : Type ℓ} {A B : Type 0} where
  -- The rule for a sequence of two steps.
  pub Ensures-bind :
      (P : A → S → Type 0) (Q : B → S → Type 0) (m : Outcome A × S) (f : A → S → Outcome B × S)
      → Ensures P m
      → ((a : A) (s : S) → P a s → Ensures Q (f a s))
      → Ensures Q (after m.0 f m.1)
  Ensures-bind P Q (ok a, s) f h k = k a s h
  Ensures-bind P Q (err e, s) f h k = tt
  Ensures-bind P Q (panic, s) f h k = h
  Ensures-bind P Q (stuck, s) f h k = h

  -- The rule for a step that leaves the state as it is.
  pub Ensures-lift :
      (Q : B → S → Type 0) (r : Outcome A) (s : S) (f : A → S → Outcome B × S)
      → Answers r
      → ((a : A) → r ≡ ok a → Ensures Q (f a s))
      → Ensures Q (after r f s)
  Ensures-lift Q (ok a) s f h k = k a refl
  Ensures-lift Q (err e) s f h k = tt
  Ensures-lift Q panic s f h k = h
  Ensures-lift Q stuck s f h k = h

pub Answers-of_Ensures {ℓ} :
    {S : Type ℓ} {A : Type 0} (P : A → S → Type 0) (m : Outcome A × S) → Ensures P m → Answers m.0
Answers-of_Ensures P (ok a, s) h = tt
Answers-of_Ensures P (err e, s) h = tt
Answers-of_Ensures P (panic, s) h = h
Answers-of_Ensures P (stuck, s) h = h
