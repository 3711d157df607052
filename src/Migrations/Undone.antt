-- ===== src/Migrations/Undone.antt =====
-- What `alembic downgrade base` undoes, and what it leaves.
use Prim.Native.String.{String}
use banking_payments_api.Prelude.{◌≡◌, refl, ◌∙◌, none, some, List, [], ◌∷◌, ◌++◌, map}
use banking_payments_api.Migrations.{
  Schema, Column, stored, perform_all, perform, assign, required, optional, stamped, varchar,
  numeric, enum, uuid,
}
use banking_payments_api.Migrations.Early.{
  drop_users_and_accounts_tables, drop_refresh_tokens_table, drop_idempotency_keys_table,
}
use banking_payments_api.Migrations.Late.{
  drop_transactions_table, restore_merchant_name, drop_webhook_events_table, drop_error_message,
}
use banking_payments_api.Migrations.Chain.{downgrade_base}
use banking_payments_api.Migrations.Declared.{
  users_columns, accounts_columns, refresh_tokens_columns, idempotency_keys_columns,
  webhook_events_columns,
}
use banking_payments_api.Migrations.Revised.{
  with_columns, last_transactions_columns, first_events_columns,
}
use banking_payments_api.Migrations.Head.{performed_all, head}

abbrev pub without : String → Schema → Schema
without table s = record s { columns = assign table none s.columns }

-- as when the table was created, but for the place of the merchant's name
abbrev pub restored_transactions_columns : List Column
restored_transactions_columns =
    required "id" uuid
    ∷ required "account_id" uuid
    ∷ optional "idempotency_key_id" uuid
    ∷ required "type" (enum "transaction_type" [])
    ∷ required "status" (enum "transaction_status" [])
    ∷ required "amount" (numeric 12 2)
    ∷ optional "description" (varchar 255)
    ∷ stamped "created_at"
    ∷ stamped "updated_at"
    ∷ optional "merchant_name" (varchar 255)
    ∷ []

module _ (s : Schema) where
  events_without_message :
      s.columns "webhook_events" ≡ some (map stored webhook_events_columns)
      → perform_all drop_error_message s
        ≡ some (with_columns "webhook_events" first_events_columns s)
  unfolding perform_all perform
  events_without_message held = rw held refl

  events_dropped :
      s.columns "webhook_events" ≡ some (map stored first_events_columns)
      → perform_all drop_webhook_events_table s ≡ some (without "webhook_events" s)
  unfolding perform_all perform
  events_dropped held = rw held (rw held refl)

  merchant_restored :
      s.columns "transactions" ≡ some (map stored last_transactions_columns)
      → perform_all restore_merchant_name s
        ≡ some (
            with_columns "transactions" restored_transactions_columns (
              with_columns "transactions"
                (last_transactions_columns ++ (optional "merchant_name" (varchar 255) ∷ []))
                s))
  unfolding perform_all perform
  merchant_restored held = rw held refl

  transactions_dropped :
      (cols : List Column)
      → s.columns "transactions" ≡ some cols
      → perform_all drop_transactions_table s ≡ some (without "transactions" s)
  unfolding perform_all perform
  transactions_dropped cols held = rw held (rw held refl)

  keys_dropped :
      s.columns "idempotency_keys" ≡ some (map stored idempotency_keys_columns)
      → perform_all drop_idempotency_keys_table s ≡ some (without "idempotency_keys" s)
  unfolding perform_all perform
  keys_dropped held = rw held refl

  tokens_dropped :
      s.columns "refresh_tokens" ≡ some (map stored refresh_tokens_columns)
      → perform_all drop_refresh_tokens_table s ≡ some (without "refresh_tokens" s)
  unfolding perform_all perform
  tokens_dropped held = rw held (rw held (rw held refl))

  users_dropped :
      s.columns "users" ≡ some (map stored users_columns)
      → s.columns "accounts" ≡ some (map stored accounts_columns)
      → perform_all drop_users_and_accounts_tables s ≡ some (without "users" (without "accounts" s))
  unfolding perform_all perform
  users_dropped users accounts = rw accounts (rw users (rw users refl))

  -- the schema before the transactions go, and after `alembic downgrade base`
  abbrev pub with_merchant : Schema
  with_merchant = with_columns "transactions" restored_transactions_columns (
      with_columns "transactions"
        (last_transactions_columns ++ (optional "merchant_name" (varchar 255) ∷ []))
        (without "webhook_events" (with_columns "webhook_events" first_events_columns (head s))))

  abbrev pub base : Schema
  base = without "users" (
      without "accounts" (
        without "refresh_tokens"
          (without "idempotency_keys" (without "transactions" with_merchant))))

module _ (s : Schema) where
  pub downgrade_base-base : downgrade_base (head s) ≡ some (base s)
  unfolding downgrade_base
  downgrade_base-base =
      performed_all _ _ (head s) (events_without_message (head s) refl)
      ∙ (performed_all _ _ _ (events_dropped _ refl)
          ∙ (performed_all _ _ _ (merchant_restored _ refl)
              ∙ (performed_all _ _ _
                    (transactions_dropped _ (map stored restored_transactions_columns) refl)
                  ∙ (performed_all _ _ _ (keys_dropped _ refl)
                      ∙ (performed_all _ _ _ (tokens_dropped _ refl)
                          ∙ users_dropped _ refl refl)))))
