-- ===== src/Prelude/Lists.antt =====
-- Lists as database tables and as texts: lengths, sums of money, selection, predicates.
use Prim.Native.Nat.{ℕ, suc, ◌+◌}
use mathlib.Core.Path.{◌≡◌, refl, ap₂}
use mathlib.Core.Bool.{Bool}
use mathlib.Core.List.{List, [], ◌∷◌, ◌++◌, map}
use native.Mathlib.Omega.{arith}
use banking_payments_api.Prelude.Tests.{if◌then◌else◌}
use banking_payments_api.Prelude.Int.{ℤ, pos, ◌+ℤ◌}

module _ {ℓ} {A : Type ℓ} where
  abbrev pub length : List A → ℕ
  length [] = 0
  length (x ∷ xs) = suc (length xs)

  pub length-append : (xs ys : List A) → length (xs ++ ys) ≡ length xs + length ys
  length-append [] ys = omega arith
  length-append (x ∷ xs) ys = omega (arith, length-append xs ys)

  -- the rows that pass a test, in order
  abbrev pub select : (A → Bool) → List A → List A
  select p [] = []
  select p (x ∷ xs) = if p x then x ∷ select p xs else select p xs

  -- the sum of an amount over the rows
  abbrev pub total : (A → ℤ) → List A → ℤ
  total f [] = pos 0
  total f (x ∷ xs) = f x +ℤ total f xs

  abbrev pub All {κ} : (A → Type κ) → List A → Type κ
  All P [] = Unit
  All P (x ∷ xs) = P x × All P xs

-- A map that keeps an amount keeps its sum.
pub total-map {ℓ} :
    {A : Type ℓ} (f : A → ℤ) (g : A → A) (xs : List A)
    → ((x : A) → f (g x) ≡ f x)
    → total f (map g xs) ≡ total f xs
total-map f g [] h = refl
total-map f g (x ∷ xs) h = ap₂ ◌+ℤ◌ (h x) (total-map f g xs h)
