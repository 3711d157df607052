-- ===== src/Tests/Migrations.antt =====
-- The migrations of an empty schema.
use Prim.Native.String.{String}
use mathlib.Core.List.{Perm}
use banking_payments_api.Prelude.Lists.{All}
use banking_payments_api.Prelude.{false, ◌++◌, ◌≡◌, ◌≢◌, refl, none, some, List, [], ◌∷◌, map}
use banking_payments_api.Migrations.{Schema, Column, stored}
use banking_payments_api.Migrations.Chain.{
  revisions, upgrades, downgrades, upgrade_head, downgrade_base,
}
use banking_payments_api.Migrations.Declared.{
  users_columns, accounts_columns, refresh_tokens_columns, idempotency_keys_columns,
  webhook_events_columns, transactions_columns, status_names, type_names,
}
use banking_payments_api.Migrations.Revised.{IsFree}
use banking_payments_api.Migrations.Head.{upgrade_head-columns}
use banking_payments_api.Migrations.Named.{Object, index, declared_objects, name_all}
use banking_payments_api.Migrations.Constraints.{IsApart, migrated-declared_objects}
use banking_payments_api.Migrations.Again.{downgrade_base-upgrade_head}

abbrev empty : Schema
empty = record { columns = λ _. none; values = λ _. none }

empty-IsFree : IsFree empty
empty-IsFree = record {
  users = refl;
  accounts = refl;
  refresh_tokens = refl;
  idempotency_keys = refl;
  transactions = refl;
  webhook_events = refl;
  transaction_type = refl;
  transaction_status = refl;
}

upgrade_head-columns_example :
    (h : Schema) × (upgrade_head empty ≡ some h)
    × (h.columns "users" ≡ some (map stored users_columns))
    × (h.columns "accounts" ≡ some (map stored accounts_columns))
    × (h.columns "refresh_tokens" ≡ some (map stored refresh_tokens_columns))
    × (h.columns "idempotency_keys" ≡ some (map stored idempotency_keys_columns))
    × (h.columns "webhook_events" ≡ some (map stored webhook_events_columns))
    × ((cols : List Column) × (h.columns "transactions" ≡ some cols)
        × Perm cols (map stored transactions_columns))
    × (h.values "transaction_status" ≡ some status_names)
    × (h.values "transaction_type" ≡ some ("DEPOSIT" ∷ "PAYMENT" ∷ "transfer_in" ∷ []))
    × (h.values "transaction_type" ≢ some type_names)
upgrade_head-columns_example = upgrade_head-columns empty empty-IsFree

downgrade_base-upgrade_head_example :
    (h : Schema) × (b : Schema) × (upgrade_head empty ≡ some h)
    × (downgrade_base h ≡ some b)
    × ((name : String) → b.columns name ≡ none)
    × (b.values "transaction_type" ≡ h.values "transaction_type")
    × (b.values "transaction_status" ≡ h.values "transaction_status")
    × (upgrade_head b ≡ none)
downgrade_base-upgrade_head_example = downgrade_base-upgrade_head empty empty-IsFree

-- an index of a table that alembic itself keeps
abbrev versions_index : List Object
versions_index =
    record {
      table = "alembic_version";
      definition = index "ix_alembic_version_num" ("version_num" ∷ []) false;
    }
    ∷ []

versions_index-IsApart : All IsApart versions_index
versions_index-IsApart = (record { table = refl; name = refl; refers = λ t h. refl }, tt)

migrated-declared_objects_example :
    (name_all (upgrades revisions) versions_index ≡ some (declared_objects ++ versions_index))
    × (name_all (downgrades revisions) (declared_objects ++ versions_index) ≡ some versions_index)
migrated-declared_objects_example = migrated-declared_objects versions_index versions_index-IsApart
