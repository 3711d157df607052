-- ===== src/Store/Errors.antt =====
-- The exceptions of the services and the routers, and those that the database and Python raise on
-- their behalf. An action either returns a value or raises.
use Prim.Native.String.{String}
use banking_payments_api.Prelude.{ℕ, ◌≡◌, refl, ◌⊎◌, inl, inr}
use banking_payments_api.Prelude.Int.{ℤ}
use banking_payments_api.Store.Decimal.{Decimal}

pub data Exc : Type 0 where
  -- SQLAlchemy: a constraint, a value that its column cannot hold, an UPDATE of a vanished row
  integrity_error data_error stale_data : Exc
  -- SQLAlchemy: `scalar_one` without a row, `scalar_one_or_none` with several
  no_result_found multiple_results : Exc
  -- app/services/webhook_processing.py
  transaction_not_found : ℕ → Exc
  transaction_already_processed : ℕ → Exc
  amount_mismatch : ℤ → Decimal → Exc
  -- a call with missing arguments; a response that does not validate
  type_error validation_error : Exc
  -- a missing key of a dictionary
  lookup_error : Exc
  -- FastAPI: status code and detail
  http_exception : ℕ → String → Exc

pub data Outcome (A : Type 0) : Type 0 where
  ok : A → Outcome A
  raise : Exc → Outcome A

infixl 5 ◌>>=◌
abbrev pub ◌>>=◌ : {A B : Type 0} → Outcome A → (A → Outcome B) → Outcome B
ok a >>= f = f a
raise e >>= f = raise e

pub Outcome-cases :
    {A : Type 0} (r : Outcome A) → ((a : A) × (r ≡ ok a)) ⊎ ((e : Exc) × (r ≡ raise e))
Outcome-cases (ok a) = inl (a, refl)
Outcome-cases (raise e) = inr (e, refl)
