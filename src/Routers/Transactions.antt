-- ===== src/Routers/Transactions.antt =====
-- app/routers/transactions.py. The validated account is the one that `get_current_account` loaded in
-- the same session. JSON texts, their digest and the parsing of a stored response are parameters.
pub mod Queries
pub mod Money
pub mod Replay
pub mod Listing
use Prim.Native.String.{String}
use text.Mathlib.Text.{◌==◌ as str_eq}
use banking_payments_api.Prelude.{ℕ, Option, none, some, List, if◌then◌else◌}
use banking_payments_api.Prelude.Int.{ℤ}
use banking_payments_api.Store.Models.{Account, User, IdempotencyKey}
use banking_payments_api.Store.Errors.{http_exception, validation_error}
use banking_payments_api.Store.Session.{Action, pure, throw, ◌>>=◌, ◌>>◌}
use banking_payments_api.Schemas.{
  DepositCreate, PaymentCreate, TransactionOut, validate_deposit, validate_payment, transaction_out,
}
use banking_payments_api.Idempotency.{
  compute_request_hash, get_existing_idempotency_key, reserve_idempotency_key,
  finalize_idempotency_key,
}
use banking_payments_api.Dependencies.{get_current_account}
use banking_payments_api.Payments.{execute_deposit, execute_payment, get_account_by_number}

abbrev pub payments_endpoint : String
payments_endpoint = "POST /transactions/payments"

abbrev unprocessable : {A : Type 0} → Action A
unprocessable = throw (http_exception 422 "Unprocessable Entity")

-- a request whose payload does not validate is answered before the handler runs
unfoldable pub create_deposit : DepositCreate → Account → ℕ → Action TransactionOut
create_deposit payload account new_id = elim (validate_deposit payload) [
  | none ↦ unprocessable
  | some amount ↦ do
    transaction ← execute_deposit account.id amount payload.description new_id
    pure (transaction_out transaction)
]

-- the route with its dependency
unfoldable pub deposit_request : DepositCreate → User → ℕ → Action TransactionOut
deposit_request payload current_user new_id = do
  account ← get_current_account current_user
  create_deposit payload account new_id

-- json.dumps of a payload, SHA-256, and Pydantic's JSON of a response both ways
pub record Encodings : Type 0 where
  pub dumps : PaymentCreate → String
  pub sha256 : String → String
  pub dump_json : TransactionOut → String
  pub validate_json : String → Option TransactionOut

module _ (enc : Encodings) where
  open enc use {dumps, sha256, dump_json, validate_json}

  response_of : Option String → Action TransactionOut
  response_of none =
      throw (http_exception 409 "Request with this Idempotency-Key is already being processed")
  response_of (some body) = elim (validate_json body) [
    | none ↦ throw validation_error
    | some response ↦ pure response
  ]

  -- the answer to a request whose key is taken
  unfoldable pub replay : Option IdempotencyKey → String → Action TransactionOut
  unfolding response_of
  replay none request_hash = throw (http_exception 409 "Idempotency key conflict, retry")
  replay (some existing) request_hash =
      if str_eq existing.request_hash request_hash
      then response_of existing.response_body
      else throw (http_exception 409 "Idempotency-Key reused with a different request payload")

  -- behind the reservation of the key
  unfoldable pub pay :
      Account
      → ℕ
      → ℤ
      → Option (List ℕ)
      → String
      → String
      → ℕ
      → Option IdempotencyKey
      → Action TransactionOut
  pay account recipient_account_id amount description key request_hash new_id none = do
    existing ← get_existing_idempotency_key account.user_id key payments_endpoint
    replay existing request_hash
  pay account recipient_account_id amount description key request_hash new_id (some entry) = do
    transaction ← execute_payment account.id recipient_account_id amount description entry.id new_id
    let response = transaction_out transaction
    finalize_idempotency_key entry.id 201 (dump_json response)
    pure response

  unfoldable pub pay_to :
      PaymentCreate → ℤ → Account → String → ℕ → ℕ → Option Account → Action TransactionOut
  pay_to payload amount account key key_id new_id none =
      throw (http_exception 404 "Contul destinatar nu există")
  pay_to payload amount account key key_id new_id (some recipient) = do
    let request_hash = compute_request_hash dumps sha256 payload
    entry ← reserve_idempotency_key account.user_id key payments_endpoint request_hash key_id
    pay account recipient.id amount payload.description key request_hash new_id entry

  -- `create_payment` behind the validation of the payload; `key_id` and `new_id` are the ids of the
  -- new key and of the new transaction
  unfoldable pub pay_validated :
      PaymentCreate → Account → String → ℕ → ℕ → Option ℤ → Action TransactionOut
  pay_validated payload account key key_id new_id none = unprocessable
  pay_validated payload account key key_id new_id (some amount) =
      if str_eq payload.recipient_account_number account.account_number
      then throw (http_exception 400 "Nu poți face o plată către propriul cont")
      else (do
        recipient ← get_account_by_number payload.recipient_account_number
        pay_to payload amount account key key_id new_id recipient)

  unfoldable pub create_payment : PaymentCreate → Account → String → ℕ → ℕ → Action TransactionOut
  unfolding pay_validated
  create_payment payload account key key_id new_id =
      pay_validated payload account key key_id new_id (validate_payment payload)

  -- the route with its dependency
  unfoldable pub payment_request : PaymentCreate → User → String → ℕ → ℕ → Action TransactionOut
  payment_request payload current_user key key_id new_id = do
    account ← get_current_account current_user
    create_payment payload account key key_id new_id
