-- ===== src/Migrations/Early.antt =====
-- alembic/versions: the tables of users, accounts, refresh tokens and idempotency keys.
use banking_payments_api.Prelude.{true, false, List, [], ◌∷◌}
use banking_payments_api.Migrations.{
  Operation, create_table, drop_table, create_index, drop_index, uuid, boolean, integer, text,
  date_time, varchar, numeric, required, optional, stamped, primary_key, unique, foreign_key,
}

-- revision a88d0caab817
abbrev pub create_users_and_accounts_tables : List Operation
create_users_and_accounts_tables =
    create_table "users"
      (required "id" uuid
        ∷ required "email" (varchar 255)
        ∷ required "hashed_password" (varchar 255)
        ∷ required "full_name" (varchar 255)
        ∷ required "is_admin" boolean
        ∷ stamped "created_at"
        ∷ [])
      (primary_key "pk_users" ("id" ∷ []) ∷ [])
    ∷ create_index "ix_users_email" "users" ("email" ∷ []) true
    ∷ create_table "accounts"
        (required "id" uuid
          ∷ required "user_id" uuid
          ∷ required "account_number" (varchar 34)
          ∷ required "balance" (numeric 12 2)
          ∷ required "currency" (varchar 3)
          ∷ stamped "created_at"
          ∷ stamped "updated_at"
          ∷ [])
        (foreign_key "fk_accounts_user_id_users" ("user_id" ∷ []) "users" ("id" ∷ []) "CASCADE"
          ∷ primary_key "pk_accounts" ("id" ∷ [])
          ∷ unique "uq_accounts_account_number" ("account_number" ∷ [])
          ∷ unique "uq_accounts_user_id" ("user_id" ∷ [])
          ∷ [])
    ∷ []

abbrev pub drop_users_and_accounts_tables : List Operation
drop_users_and_accounts_tables =
    drop_table "accounts" ∷ drop_index "ix_users_email" "users" ∷ drop_table "users" ∷ []

-- revision 9752bcbafa4a
abbrev pub add_refresh_tokens_table : List Operation
add_refresh_tokens_table =
    create_table "refresh_tokens"
      (required "id" uuid
        ∷ required "user_id" uuid
        ∷ required "token_hash" (varchar 64)
        ∷ required "revoked" boolean
        ∷ stamped "created_at"
        ∷ required "expires_at" date_time
        ∷ [])
      (foreign_key "fk_refresh_tokens_user_id_users" ("user_id" ∷ []) "users" ("id" ∷ []) "CASCADE"
        ∷ primary_key "pk_refresh_tokens" ("id" ∷ [])
        ∷ [])
    ∷ create_index "ix_refresh_tokens_token_hash" "refresh_tokens" ("token_hash" ∷ []) true
    ∷ create_index "ix_refresh_tokens_user_id" "refresh_tokens" ("user_id" ∷ []) false
    ∷ []

abbrev pub drop_refresh_tokens_table : List Operation
drop_refresh_tokens_table =
    drop_index "ix_refresh_tokens_user_id" "refresh_tokens"
    ∷ drop_index "ix_refresh_tokens_token_hash" "refresh_tokens"
    ∷ drop_table "refresh_tokens"
    ∷ []

-- revision 76413deb913e
abbrev pub add_idempotency_keys_table : List Operation
add_idempotency_keys_table =
    create_table "idempotency_keys"
      (required "id" uuid
        ∷ required "key" (varchar 255)
        ∷ required "user_id" uuid
        ∷ required "endpoint" (varchar 255)
        ∷ required "request_hash" (varchar 64)
        ∷ optional "status_code" integer
        ∷ optional "response_body" text
        ∷ stamped "created_at"
        ∷ required "expires_at" date_time
        ∷ [])
      (foreign_key "fk_idempotency_keys_user_id_users" ("user_id" ∷ []) "users" ("id" ∷ [])
          "CASCADE"
        ∷ primary_key "pk_idempotency_keys" ("id" ∷ [])
        ∷ unique "uq_idempotency_keys_user_key_endpoint" ("user_id" ∷ "key" ∷ "endpoint" ∷ [])
        ∷ [])
    ∷ []

abbrev pub drop_idempotency_keys_table : List Operation
drop_idempotency_keys_table = drop_table "idempotency_keys" ∷ []
