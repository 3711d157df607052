-- ===== src/Migrations/Late.antt =====
-- alembic/versions: the tables of transactions and webhook events, and their changes.
use banking_payments_api.Prelude.{true, false, List, [], ◌∷◌}
use banking_payments_api.Migrations.{
  Operation, Column, create_table, drop_table, create_index, drop_index, add_column, drop_column,
  create_foreign_key, drop_constraint, add_value, uuid, boolean, text, varchar, numeric, enum,
  required, optional, stamped, Constraint, primary_key, foreign_key,
}

-- revision 9c4b5ad32360
abbrev pub plain_columns : List Column
plain_columns =
    required "amount" (numeric 12 2)
    ∷ optional "description" (varchar 255)
    ∷ optional "merchant_name" (varchar 255)
    ∷ stamped "created_at"
    ∷ stamped "updated_at"
    ∷ []

abbrev pub enum_columns : List Column
enum_columns =
    required "status" (enum "transaction_status" ("PENDING" ∷ "COMPLETED" ∷ "FAILED" ∷ []))
    ∷ plain_columns

abbrev pub created_transactions_columns : List Column
created_transactions_columns =
    required "id" uuid
    ∷ required "account_id" uuid
    ∷ optional "idempotency_key_id" uuid
    ∷ required "type" (enum "transaction_type" ("DEPOSIT" ∷ "PAYMENT" ∷ []))
    ∷ enum_columns

abbrev pub transactions_constraints : List Constraint
transactions_constraints =
    foreign_key "fk_transactions_account_id_accounts" ("account_id" ∷ []) "accounts" ("id" ∷ [])
      "CASCADE"
    ∷ foreign_key "fk_transactions_idempotency_key_id_idempotency_keys" ("idempotency_key_id" ∷ [])
        "idempotency_keys" ("id" ∷ []) "SET NULL"
    ∷ primary_key "pk_transactions" ("id" ∷ [])
    ∷ []

abbrev pub add_transactions_table_with_enums : List Operation
add_transactions_table_with_enums =
    create_table "transactions" created_transactions_columns transactions_constraints
    ∷ create_index "ix_transactions_account_id" "transactions" ("account_id" ∷ []) false
    ∷ []

abbrev pub drop_transactions_table : List Operation
drop_transactions_table =
    drop_index "ix_transactions_account_id" "transactions" ∷ drop_table "transactions" ∷ []

-- revision 1df65bc21ca9
abbrev pub replace_merchant_name : List Operation
replace_merchant_name =
    add_column "transactions" (optional "related_account_id" uuid)
    ∷ create_foreign_key "transactions" (
        foreign_key "fk_transactions_related_account_id_accounts" ("related_account_id" ∷ [])
          "accounts" ("id" ∷ []) "SET NULL")
    ∷ drop_column "transactions" "merchant_name"
    ∷ []

abbrev pub restore_merchant_name : List Operation
restore_merchant_name =
    add_column "transactions" (optional "merchant_name" (varchar 255))
    ∷ drop_constraint "fk_transactions_related_account_id_accounts" "transactions"
    ∷ drop_column "transactions" "related_account_id"
    ∷ []

-- revision c1001ae3cd8c, whose downgrade does nothing
abbrev pub add_transfer_in_value : List Operation
add_transfer_in_value = add_value "transaction_type" "transfer_in" ∷ []

-- revision 1e874c4aadfd
abbrev pub add_webhook_events_table : List Operation
add_webhook_events_table =
    create_table "webhook_events"
      (required "id" uuid
        ∷ required "event_id" (varchar 255)
        ∷ required "event_type" (varchar 50)
        ∷ required "payload" text
        ∷ required "signature_valid" boolean
        ∷ required "processed" boolean
        ∷ stamped "created_at"
        ∷ [])
      (primary_key "pk_webhook_events" ("id" ∷ []) ∷ [])
    ∷ create_index "ix_webhook_events_event_id" "webhook_events" ("event_id" ∷ []) true
    ∷ []

abbrev pub drop_webhook_events_table : List Operation
drop_webhook_events_table =
    drop_index "ix_webhook_events_event_id" "webhook_events" ∷ drop_table "webhook_events" ∷ []

-- revision 11bb4f593c54
abbrev pub add_error_message : List Operation
add_error_message = add_column "webhook_events" (optional "error_message" text) ∷ []

abbrev pub drop_error_message : List Operation
drop_error_message = drop_column "webhook_events" "error_message" ∷ []
