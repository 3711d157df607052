-- ===== src/Migrations/Declared.antt =====
-- The columns that app/models/*.py declare.
use Prim.Native.String.{String}
use banking_payments_api.Prelude.{List, [], ◌∷◌}
use banking_payments_api.Migrations.{
  Column, uuid, boolean, integer, text, date_time, varchar, numeric, enum, required, optional,
  stamped,
}

abbrev pub users_columns : List Column
users_columns =
    required "id" uuid
    ∷ required "email" (varchar 255)
    ∷ required "hashed_password" (varchar 255)
    ∷ required "full_name" (varchar 255)
    ∷ required "is_admin" boolean
    ∷ stamped "created_at"
    ∷ []

abbrev pub accounts_columns : List Column
accounts_columns =
    required "id" uuid
    ∷ required "user_id" uuid
    ∷ required "account_number" (varchar 34)
    ∷ required "balance" (numeric 12 2)
    ∷ required "currency" (varchar 3)
    ∷ stamped "created_at"
    ∷ stamped "updated_at"
    ∷ []

-- `SAEnum` stores the names of the members of app/enums.py.
abbrev pub type_names : List String
type_names = "DEPOSIT" ∷ "PAYMENT" ∷ "TRANSFER_IN" ∷ []

abbrev pub status_names : List String
status_names = "PENDING" ∷ "COMPLETED" ∷ "FAILED" ∷ []

abbrev pub transactions_columns : List Column
transactions_columns =
    required "id" uuid
    ∷ required "account_id" uuid
    ∷ optional "related_account_id" uuid
    ∷ optional "idempotency_key_id" uuid
    ∷ required "type" (enum "transaction_type" type_names)
    ∷ required "status" (enum "transaction_status" status_names)
    ∷ required "amount" (numeric 12 2)
    ∷ optional "description" (varchar 255)
    ∷ stamped "created_at"
    ∷ stamped "updated_at"
    ∷ []

abbrev pub idempotency_keys_columns : List Column
idempotency_keys_columns =
    required "id" uuid
    ∷ required "key" (varchar 255)
    ∷ required "user_id" uuid
    ∷ required "endpoint" (varchar 255)
    ∷ required "request_hash" (varchar 64)
    ∷ optional "status_code" integer
    ∷ optional "response_body" text
    ∷ stamped "created_at"
    ∷ required "expires_at" date_time
    ∷ []

abbrev pub webhook_events_columns : List Column
webhook_events_columns =
    required "id" uuid
    ∷ required "event_id" (varchar 255)
    ∷ required "event_type" (varchar 50)
    ∷ required "payload" text
    ∷ required "signature_valid" boolean
    ∷ required "processed" boolean
    ∷ stamped "created_at"
    ∷ optional "error_message" text
    ∷ []

abbrev pub refresh_tokens_columns : List Column
refresh_tokens_columns =
    required "id" uuid
    ∷ required "user_id" uuid
    ∷ required "token_hash" (varchar 64)
    ∷ required "revoked" boolean
    ∷ stamped "created_at"
    ∷ required "expires_at" date_time
    ∷ []
