-- ===== src/Store/Models.antt =====
-- The rows of app/models/*.py with the enumerations of app/enums.py, and the database that holds
-- them. Ids (UUIDs) and times (seconds) are numbers, money is whole cents, a description is its
-- list of code points, and other texts are only compared.
use Prim.Native.String.{String}
use banking_payments_api.Prelude.{ℕ, Bool, true, false, Option, List}
use banking_payments_api.Prelude.Int.{ℤ}
use banking_payments_api.Store.Tables.{HasId}

pub data TransactionType : Type 0 where
  deposit payment transfer_in : TransactionType

pub data TransactionStatus : Type 0 where
  pending completed failed : TransactionStatus

pub record User : Type 0 where
  pub id : ℕ
  pub email : String
  pub hashed_password : String
  pub full_name : String
  pub is_admin : Bool
  pub created_at : ℕ

pub record Account : Type 0 where
  pub id : ℕ
  pub user_id : ℕ
  pub account_number : String
  pub balance : ℤ
  pub currency : String
  pub created_at : ℕ
  pub updated_at : ℕ

pub record Transaction : Type 0 where
  pub id : ℕ
  pub account_id : ℕ
  pub related_account_id : Option ℕ
  pub idempotency_key_id : Option ℕ
  pub type : TransactionType
  pub status : TransactionStatus
  pub amount : ℤ
  pub description : Option (List ℕ)
  pub created_at : ℕ
  pub updated_at : ℕ

pub record IdempotencyKey : Type 0 where
  pub id : ℕ
  pub key : String
  pub user_id : ℕ
  pub endpoint : String
  pub request_hash : String
  pub status_code : Option ℕ
  pub response_body : Option String
  pub created_at : ℕ
  pub expires_at : ℕ

pub record WebhookEvent : Type 0 where
  pub id : ℕ
  pub event_id : String
  pub event_type : String
  pub payload : String
  pub signature_valid : Bool
  pub processed : Bool
  pub created_at : ℕ
  pub error_message : Option String

pub record RefreshToken : Type 0 where
  pub id : ℕ
  pub user_id : ℕ
  pub token_hash : String
  pub revoked : Bool
  pub created_at : ℕ
  pub expires_at : ℕ

pub record Database : Type 0 where
  pub users : List User
  pub accounts : List Account
  pub refresh_tokens : List RefreshToken
  pub idempotency_keys : List IdempotencyKey
  pub transactions : List Transaction
  pub webhook_events : List WebhookEvent

instance abbrev pub user_id : HasId User
user_id = record { id_of = λ u. u.id }

instance abbrev pub account_id : HasId Account
account_id = record { id_of = λ a. a.id }

instance abbrev pub refresh_token_id : HasId RefreshToken
refresh_token_id = record { id_of = λ t. t.id }

instance abbrev pub idempotency_key_id : HasId IdempotencyKey
idempotency_key_id = record { id_of = λ k. k.id }

instance abbrev pub transaction_id : HasId Transaction
transaction_id = record { id_of = λ t. t.id }

instance abbrev pub webhook_event_id : HasId WebhookEvent
webhook_event_id = record { id_of = λ e. e.id }

-- `==` on the two enumerations
abbrev pub is_pending : TransactionStatus → Bool
is_pending pending = true
is_pending _ = false

abbrev pub is_payment : TransactionType → Bool
is_payment payment = true
is_payment _ = false
