-- ===== src/Tests/Bank.antt =====
-- Two customers: Ana has sent Bob 25.00, which is not confirmed yet, and the gateway's event for it
-- has arrived.
use Prim.Native.String.{String}
use banking_payments_api.Prelude.{ℕ, true, false, none, some, [], ◌∷◌}
use banking_payments_api.Prelude.Int.{ℤ, pos}
use banking_payments_api.Store.Decimal.{Decimal}
use banking_payments_api.Store.Models.{
  User, Account, Transaction, TransactionType, TransactionStatus, IdempotencyKey, WebhookEvent,
  Database,
}
use banking_payments_api.Store.Session.{Session, open_session}
use banking_payments_api.Schemas.{
  DepositCreate, PaymentCreate, TransactionOut, WebhookPaymentConfirmation,
}
use banking_payments_api.Routers.Confirmation.{Gateway}
use banking_payments_api.Webhooks.{Texts}
use banking_payments_api.Routers.Transactions.{Encodings}

abbrev pub ana : User
ana = record {
  id = 1;
  email = "ana@example.com";
  hashed_password = "a";
  full_name = "Ana";
  is_admin = false;
  created_at = 0;
}

abbrev pub bob : User
bob = record {
  id = 2;
  email = "bob@example.com";
  hashed_password = "b";
  full_name = "Bob";
  is_admin = false;
  created_at = 0;
}

abbrev pub account : ℕ → ℕ → String → ℤ → Account
account id user number balance = record {
  id = id;
  user_id = user;
  account_number = number;
  balance = balance;
  currency = "RON";
  created_at = 0;
  updated_at = 0;
}

abbrev pub key : IdempotencyKey
key = record {
  id = 20;
  key = "k1";
  user_id = 1;
  endpoint = "POST /transactions/payments";
  request_hash = "h";
  status_code = some 201;
  response_body = some "r";
  created_at = 100;
  expires_at = 86500;
}

abbrev pub sent : Transaction
sent = record {
  id = 30;
  account_id = 11;
  related_account_id = some 12;
  idempotency_key_id = some 20;
  type = TransactionType.payment;
  status = TransactionStatus.pending;
  amount = pos 2500;
  description = none;
  created_at = 100;
  updated_at = 100;
}

abbrev pub event : WebhookEvent
event = record {
  id = 40;
  event_id = "e1";
  event_type = "payment.succeeded";
  payload = "p";
  signature_valid = true;
  processed = false;
  created_at = 200;
  error_message = none;
}

abbrev pub bank : Database
bank = record {
  users = ana ∷ bob ∷ [];
  accounts = account 11 1 "RO11" (pos 7500) ∷ account 12 2 "RO12" (pos 300) ∷ [];
  refresh_tokens = [];
  idempotency_keys = key ∷ [];
  transactions = sent ∷ [];
  webhook_events = event ∷ [];
}

abbrev pub session : Session
session = open_session 300 bank

-- 25.00, and 24.50 as 24.5
abbrev pub exact : Decimal
exact = record { coefficient = pos 2500; places = 2 }

abbrev pub other : Decimal
other = record { coefficient = pos 245; places = 1 }

abbrev pub deposit_of_25 : DepositCreate
deposit_of_25 = record { amount = exact; description = none }

abbrev pub payment_to_bob : PaymentCreate
payment_to_bob = record { amount = exact; recipient_account_number = "RO12"; description = none }

abbrev pub response : TransactionOut
response = record {
  id = 31;
  account_id = 11;
  type = TransactionType.payment;
  status = TransactionStatus.pending;
  amount = pos 2500;
  description = none;
  related_account_id = some 12;
  created_at = 300;
}

abbrev pub texts : Texts
texts = record { of_id = λ _. "30"; of_cents = λ _. "25.00"; of_decimal = λ _. "24.5" }

abbrev pub encodings : Encodings
encodings = record {
  dumps = λ _. "p";
  sha256 = λ _. "h";
  dump_json = λ _. "r";
  validate_json = λ _. some response;
}

abbrev pub ana_account : Account
ana_account = account 11 1 "RO11" (pos 7500)

abbrev pub bob_account : Account
bob_account = account 12 2 "RO12" (pos 300)

-- the gateway's delivery of the event; the body is its text
abbrev pub confirmation : WebhookPaymentConfirmation
confirmation = record {
  event_id = "e1";
  event_type = "payment.succeeded";
  transaction_id = 30;
  amount = exact;
}

abbrev pub gateway : Gateway String
gateway = record {
  hexdigest = λ _ body. body;
  parse = λ _. some confirmation;
  decode = λ body. body;
  texts = texts;
}
