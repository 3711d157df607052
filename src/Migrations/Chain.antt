-- ===== src/Migrations/Chain.antt =====
-- The chain of revisions, each behind its `down_revision`.
use banking_payments_api.Prelude.{Option, List, [], ◌∷◌, ◌++◌}
use banking_payments_api.Migrations.{Operation, Schema, perform_all}
use banking_payments_api.Migrations.Early.{
  create_users_and_accounts_tables, drop_users_and_accounts_tables, add_refresh_tokens_table,
  drop_refresh_tokens_table, add_idempotency_keys_table, drop_idempotency_keys_table,
}
use banking_payments_api.Migrations.Late.{
  add_transactions_table_with_enums, drop_transactions_table, replace_merchant_name,
  restore_merchant_name, add_transfer_in_value, add_webhook_events_table, drop_webhook_events_table,
  add_error_message, drop_error_message,
}

pub record Revision : Type 0 where
  pub upgrade : List Operation
  pub downgrade : List Operation

-- revisions 164df2a1fdf4 and aec632dd61fc, which do nothing
abbrev pub first_empty_revision : Revision
first_empty_revision = record { upgrade = []; downgrade = [] }

abbrev pub second_empty_revision : Revision
second_empty_revision = record { upgrade = []; downgrade = [] }

-- from the first to the head
abbrev pub revisions : List Revision
revisions =
    record {
      upgrade = create_users_and_accounts_tables;
      downgrade = drop_users_and_accounts_tables;
    }
    ∷ record { upgrade = add_refresh_tokens_table; downgrade = drop_refresh_tokens_table }
    ∷ first_empty_revision
    ∷ second_empty_revision
    ∷ record { upgrade = add_idempotency_keys_table; downgrade = drop_idempotency_keys_table }
    ∷ record { upgrade = add_transactions_table_with_enums; downgrade = drop_transactions_table }
    ∷ record { upgrade = replace_merchant_name; downgrade = restore_merchant_name }
    ∷ record { upgrade = add_transfer_in_value; downgrade = [] }
    ∷ record { upgrade = add_webhook_events_table; downgrade = drop_webhook_events_table }
    ∷ record { upgrade = add_error_message; downgrade = drop_error_message }
    ∷ []

abbrev pub upgrades : List Revision → List Operation
upgrades [] = []
upgrades (r ∷ rs) = r.upgrade ++ upgrades rs

abbrev pub downgrades : List Revision → List Operation
downgrades [] = []
downgrades (r ∷ rs) = downgrades rs ++ r.downgrade

-- `alembic upgrade head` and `alembic downgrade base`
unfoldable pub upgrade_head : Schema → Option Schema
upgrade_head s = perform_all (upgrades revisions) s

unfoldable pub downgrade_base : Schema → Option Schema
downgrade_base s = perform_all (downgrades revisions) s
