-- ===== src/Common/Spans.antt =====
-- Slice expressions that panic.
use Prim.Native.Nat.{ℕ, ◌≤◌}
use mathlib.Core.Path.{◌≡◌, refl}
use mathlib.Core.Bool.{◌&&◌}
use mathlib.Core.List.{List}
use obconnector_go.Common.Tests.{leb, le→leb, if◌then◌else◌}
use obconnector_go.Common.Lists.{length, slice}
use obconnector_go.Common.Results.{Outcome, ok, panic}

module _ {ℓ} {A : Type ℓ} where
  -- `xs[a:b]` of an array that ends with xs.
  abbrev pub span : ℕ → ℕ → List A → Outcome (List A)
  span a b xs = if leb a b && leb b (length xs) then ok (slice a b xs) else panic

  pub span-ok : (a b : ℕ) (xs : List A) → a ≤ b → b ≤ length xs → span a b xs ≡ ok (slice a b xs)
  span-ok a b xs h k = rw (le→leb a b h, le→leb b (length xs) k) refl
