-- ===== src/Schemas.antt =====
-- app/schemas/transaction.py and app/schemas/webhook.py: the requests, their validation, and the
-- response. A valid amount is a positive whole number of cents.
use Prim.Native.String.{String, count}
use text.Mathlib.Text.{◌==◌ as str_eq}
use banking_payments_api.Prelude.{
  ℕ, Bool, ◌&&◌, ◌||◌, Option, none, some, List, ltb, leb, if◌then◌else◌,
}
use banking_payments_api.Prelude.Int.{ℤ, pos, ltb_ℤ}
use banking_payments_api.Store.Decimal.{Decimal, cents}
use banking_payments_api.Store.Models.{Transaction, TransactionType, TransactionStatus}
use banking_payments_api.Store.Schema.{fits_description}

pub record DepositCreate : Type 0 where
  pub amount : Decimal
  pub description : Option (List ℕ)

pub record PaymentCreate : Type 0 where
  pub amount : Decimal
  pub recipient_account_number : String
  pub description : Option (List ℕ)

pub record TransactionOut : Type 0 where
  pub id : ℕ
  pub account_id : ℕ
  pub type : TransactionType
  pub status : TransactionStatus
  pub amount : ℤ
  pub description : Option (List ℕ)
  pub related_account_id : Option ℕ
  pub created_at : ℕ

pub record WebhookPaymentConfirmation : Type 0 where
  pub event_id : String
  pub event_type : String
  pub transaction_id : ℕ
  pub amount : Decimal

-- `Field(gt=0, decimal_places=2)`: the amount in cents
unfoldable pub valid_amount : Decimal → Option ℤ
valid_amount d = elim (cents d) [ none ↦ none | some c ↦ if ltb_ℤ (pos 0) c then some c else none ]

-- the validated amount, in cents
unfoldable pub validate_deposit : DepositCreate → Option ℤ
validate_deposit p = if fits_description p.description then valid_amount p.amount else none

unfoldable pub validate_payment : PaymentCreate → Option ℤ
validate_payment p =
    let n = count p.recipient_account_number in
    if fits_description p.description && (ltb 0 n && leb n 34) then valid_amount p.amount else none

-- `Literal["payment.succeeded", "payment.failed"]`
unfoldable pub validate_event_type : String → Bool
validate_event_type t = str_eq t "payment.succeeded" || str_eq t "payment.failed"

-- `TransactionOut.model_validate(transaction)`, from the attributes
abbrev pub transaction_out : Transaction → TransactionOut
transaction_out t = record {
  id = t.id;
  account_id = t.account_id;
  type = t.type;
  status = t.status;
  amount = t.amount;
  description = t.description;
  related_account_id = t.related_account_id;
  created_at = t.created_at;
}
