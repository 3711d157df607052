-- ===== src/Migrations/Revised.antt =====
-- What each revision leaves.
use Prim.Native.String.{String}
use banking_payments_api.Prelude.{
  given, ◌≡◌, refl, ap, ◌∙◌, Option, none, some, false, List, [], ◌∷◌, ◌++◌, map,
}
use banking_payments_api.Migrations.{
  Schema, Column, Operation, Constraint, create_table, create_index, create_types, when_free,
  stored, assign, perform, perform_all, required, optional, stamped, uuid, text, enum, varchar,
  numeric, boolean,
}
use banking_payments_api.Migrations.Early.{
  create_users_and_accounts_tables, add_refresh_tokens_table, add_idempotency_keys_table,
}
use banking_payments_api.Migrations.Late.{
  created_transactions_columns, enum_columns, plain_columns, transactions_constraints,
  add_transactions_table_with_enums, replace_merchant_name, add_transfer_in_value,
  add_webhook_events_table, add_error_message,
}
use banking_payments_api.Migrations.Declared.{
  users_columns, accounts_columns, refresh_tokens_columns, idempotency_keys_columns, status_names,
  webhook_events_columns,
}

-- the names that the scripts create are free
pub record IsFree (s : Schema) : Type 0 where
  pub users : s.columns "users" ≡ none
  pub accounts : s.columns "accounts" ≡ none
  pub refresh_tokens : s.columns "refresh_tokens" ≡ none
  pub idempotency_keys : s.columns "idempotency_keys" ≡ none
  pub transactions : s.columns "transactions" ≡ none
  pub webhook_events : s.columns "webhook_events" ≡ none
  pub transaction_type : s.values "transaction_type" ≡ none
  pub transaction_status : s.values "transaction_status" ≡ none

abbrev pub with_columns : String → List Column → Schema → Schema
with_columns table cols s = record s { columns = assign table (some (map stored cols)) s.columns }

abbrev pub with_values : String → List String → Schema → Schema
with_values type members s = record s { values = assign type (some members) s.values }

-- the columns of the transactions when their table is created, and with the new column behind them
abbrev pub first_transactions_columns : List Column
first_transactions_columns =
    required "id" uuid
    ∷ required "account_id" uuid
    ∷ optional "idempotency_key_id" uuid
    ∷ required "type" (enum "transaction_type" [])
    ∷ required "status" (enum "transaction_status" [])
    ∷ required "amount" (numeric 12 2)
    ∷ optional "description" (varchar 255)
    ∷ optional "merchant_name" (varchar 255)
    ∷ stamped "created_at"
    ∷ stamped "updated_at"
    ∷ []

abbrev pub last_transactions_columns : List Column
last_transactions_columns =
    required "id" uuid
    ∷ required "account_id" uuid
    ∷ optional "idempotency_key_id" uuid
    ∷ required "type" (enum "transaction_type" [])
    ∷ required "status" (enum "transaction_status" [])
    ∷ required "amount" (numeric 12 2)
    ∷ optional "description" (varchar 255)
    ∷ stamped "created_at"
    ∷ stamped "updated_at"
    ∷ optional "related_account_id" uuid
    ∷ []

abbrev pub first_events_columns : List Column
first_events_columns =
    required "id" uuid
    ∷ required "event_id" (varchar 255)
    ∷ required "event_type" (varchar 50)
    ∷ required "payload" text
    ∷ required "signature_valid" boolean
    ∷ required "processed" boolean
    ∷ stamped "created_at"
    ∷ []

performed :
    (o : Operation) (os : List Operation) (s : Schema) {s' : Schema}
    → perform o s ≡ some s'
    → perform_all (o ∷ os) s ≡ perform_all os s'
unfolding perform_all
performed o os s e = ap (λ r. given r (perform_all os)) e

created :
    (name : String) (cols : List Column) (constraints : List Constraint) (s : Schema)
    {values : String → Option (List String)}
    → s.columns name ≡ none
    → create_types cols s.values ≡ some values
    → perform (create_table name cols constraints) s
      ≡ some (record { columns = assign name (some (map stored cols)) s.columns; values = values })
unfolding perform
created name cols constraints s free types = rw (free, types) refl

type_created :
    (column name : String) (members : List String) (cs : List Column)
    (values : String → Option (List String))
    → values name ≡ none
    → create_types (required column (enum name members) ∷ cs) values
      ≡ create_types cs (assign name (some members) values)
unfolding create_types
type_created column name members cs values free =
    ap (λ o. when_free o (create_types cs (assign name (some members) values))) free

transaction_types :
    (values : String → Option (List String))
    → values "transaction_type" ≡ none
    → values "transaction_status" ≡ none
    → create_types created_transactions_columns values
      ≡ some (
          assign "transaction_status"
            (some status_names)
            (assign "transaction_type" (some ("DEPOSIT" ∷ "PAYMENT" ∷ [])) values))
unfolding create_types
transaction_types values free_type free_status =
    type_created "type" "transaction_type" ("DEPOSIT" ∷ "PAYMENT" ∷ []) enum_columns values
      free_type
    ∙ type_created "status" "transaction_status" status_names plain_columns
        (assign "transaction_type" (some ("DEPOSIT" ∷ "PAYMENT" ∷ [])) values) free_status

module _ (s : Schema) where
  pub users_and_accounts :
      s.columns "users" ≡ none
      → s.columns "accounts" ≡ none
      → perform_all create_users_and_accounts_tables s
        ≡ some (with_columns "accounts" accounts_columns (with_columns "users" users_columns s))
  unfolding perform_all perform
  users_and_accounts users accounts = rw (users, accounts) refl

  pub refresh_tokens :
      s.columns "refresh_tokens" ≡ none
      → perform_all add_refresh_tokens_table s
        ≡ some (with_columns "refresh_tokens" refresh_tokens_columns s)
  unfolding perform_all perform
  refresh_tokens free = rw free refl

  pub idempotency_keys :
      s.columns "idempotency_keys" ≡ none
      → perform_all add_idempotency_keys_table s
        ≡ some (with_columns "idempotency_keys" idempotency_keys_columns s)
  unfolding perform_all perform
  idempotency_keys free = rw free refl

  pub transactions :
      s.columns "transactions" ≡ none
      → s.values "transaction_type" ≡ none
      → s.values "transaction_status" ≡ none
      → perform_all add_transactions_table_with_enums s
        ≡ some (
            with_columns "transactions" first_transactions_columns (
              with_values "transaction_status" status_names
                (with_values "transaction_type" ("DEPOSIT" ∷ "PAYMENT" ∷ []) s)))
  unfolding perform_all perform
  transactions free free_type free_status =
      performed (create_table "transactions" created_transactions_columns transactions_constraints)
        (create_index "ix_transactions_account_id" "transactions" ("account_id" ∷ []) false ∷ []) s
        (created "transactions" created_transactions_columns transactions_constraints s free
          (transaction_types s.values free_type free_status))

  pub related_account :
      s.columns "transactions" ≡ some (map stored first_transactions_columns)
      → perform_all replace_merchant_name s
        ≡ some (
            with_columns "transactions" last_transactions_columns (
              with_columns "transactions"
                (first_transactions_columns ++ (optional "related_account_id" uuid ∷ []))
                s))
  unfolding perform_all perform
  related_account held = rw held refl

  pub transfer_in_value :
      s.values "transaction_type" ≡ some ("DEPOSIT" ∷ "PAYMENT" ∷ [])
      → perform_all add_transfer_in_value s
        ≡ some (with_values "transaction_type" ("DEPOSIT" ∷ "PAYMENT" ∷ "transfer_in" ∷ []) s)
  unfolding perform_all perform
  transfer_in_value held = rw held refl

  pub webhook_events :
      s.columns "webhook_events" ≡ none
      → perform_all add_webhook_events_table s
        ≡ some (with_columns "webhook_events" first_events_columns s)
  unfolding perform_all perform
  webhook_events free = rw free refl

  pub error_message :
      s.columns "webhook_events" ≡ some (map stored first_events_columns)
      → perform_all add_error_message s
        ≡ some (with_columns "webhook_events" webhook_events_columns s)
  unfolding perform_all perform
  error_message held = rw held refl
