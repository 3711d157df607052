-- ===== src/Store/Decimal.antt =====
-- Python's `Decimal` as far as requests carry it, and the column type `Numeric(12, 2)`.
use banking_payments_api.Prelude.{
  ℕ, zero, suc, ◌+◌, ◌*◌, ◌/◌, ◌%◌, ◌^◌, Bool, ◌&&◌, Option, none, some, ltb, ◌==◌, if◌then◌else◌,
}
use banking_payments_api.Prelude.Int.{ℤ, pos, negsuc, pos_part, neg_part}

-- coefficient / 10 ^ places
pub record Decimal : Type 0 where
  pub coefficient : ℤ
  pub places : ℕ

-- `n / 10 ^ places` as whole cents, if it is a whole number of cents
unfoldable pub scale : ℕ → ℕ → Option ℕ
scale n places = if n * 100 % 10 ^ places == 0 then some (n * 100 / 10 ^ places) else none

abbrev negate : ℕ → ℤ
negate zero = pos 0
negate (suc n) = negsuc n

signed : ℤ → Option ℕ → Option ℤ
signed _ none = none
signed (pos _) (some n) = some (pos n)
signed (negsuc _) (some n) = some (negate n)

-- The value in cents. Trailing zeros do not count: 1.500 is 150 cents, 1.505 is no number of cents.
unfoldable pub cents : Decimal → Option ℤ
unfolding scale signed
cents d = signed d.coefficient (scale (pos_part d.coefficient + neg_part d.coefficient) d.places)

-- `Numeric(12, 2)` holds less than 10 ^ 10 in absolute value.
abbrev pub numeric_limit : ℕ
numeric_limit = 1_000_000_000_000

unfoldable pub fits_numeric : ℤ → Bool
fits_numeric c = ltb (pos_part c) numeric_limit && ltb (neg_part c) numeric_limit
