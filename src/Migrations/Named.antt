-- ===== src/Migrations/Named.antt =====
-- The constraints and indexes of a migrated database, and those that app/models/*.py declare under the
-- NAMING_CONVENTION of app/database.py.
use Prim.Native.String.{String, ◌++◌ as str_append}
use package.text.Mathlib.Text.{◌==◌}
use banking_payments_api.Prelude.{
  Bool, given, true, false, not, ◌&&◌, ◌||◌, Option, none, some, List, [], ◌∷◌, ◌++◌, if◌then◌else◌,
}
use banking_payments_api.Prelude.Lists.{select}
use banking_payments_api.Migrations.{
  Constraint, primary_key, unique, foreign_key, Operation, create_table, drop_table, create_index,
  drop_index, add_column, drop_column, create_foreign_key, drop_constraint, add_value, when_free,
  among,
}

-- a constraint or an index of a table
pub data Definition : Type 0 where
  constraint : Constraint → Definition
  index : (name : String) → List String → (unique : Bool) → Definition

pub record Object : Type 0 where
  pub table : String
  pub definition : Definition

abbrev pub name_of : Definition → String
name_of (constraint (primary_key name cols)) = name
name_of (constraint (unique name cols)) = name
name_of (constraint (foreign_key name cols table referred ondelete)) = name
name_of (index name cols is_unique) = name

abbrev pub columns_of : Definition → List String
columns_of (constraint (primary_key name cols)) = cols
columns_of (constraint (unique name cols)) = cols
columns_of (constraint (foreign_key name cols table referred ondelete)) = cols
columns_of (index name cols is_unique) = cols

abbrev pub lookup : String → List Object → Option Object
lookup name [] = none
lookup name (o ∷ os) = if name_of o.definition == name then some o else lookup name os

abbrev pub add : String → Definition → List Object → Option (List Object)
add table d os =
    when_free (lookup (name_of d) os) (some (record { table = table; definition = d } ∷ os))

abbrev pub add_all : String → List Constraint → List Object → Option (List Object)
add_all table [] os = some os
add_all table (c ∷ cs) os = given (add table (constraint c) os) (add_all table cs)

abbrev pub remove : String → List Object → Option (List Object)
remove name os =
    given (lookup name os) (λ _. some (select (λ o. not (name_of o.definition == name)) os))

-- what stands on a column goes with it
abbrev pub stands_on : String → String → Object → Bool
stands_on table column o = (o.table == table) && among column (columns_of o.definition)

-- a foreign key of another table that refers to the table
abbrev pub refers_to : String → Definition → Bool
refers_to table (constraint (foreign_key name cols to referred ondelete)) = to == table
refers_to table (constraint (primary_key name cols)) = false
refers_to table (constraint (unique name cols)) = false
refers_to table (index name cols is_unique) = false

abbrev pub refers : String → Object → Bool
refers table o = refers_to table o.definition && not (o.table == table)

abbrev pub is_referred : String → List Object → Bool
is_referred table [] = false
is_referred table (o ∷ os) = refers table o || is_referred table os

unfoldable pub name_objects : Operation → List Object → Option (List Object)
name_objects (create_table table cols constraints) os = add_all table constraints os
name_objects (drop_table table) os =
    if is_referred table os then none else some (select (λ o. not (o.table == table)) os)
name_objects (create_index name table cols is_unique) os = add table (index name cols is_unique) os
name_objects (drop_index name table) os = remove name os
name_objects (add_column table c) os = some os
name_objects (drop_column table column) os = some (select (λ o. not (stands_on table column o)) os)
name_objects (create_foreign_key table c) os = add table (constraint c) os
name_objects (drop_constraint name table) os = remove name os
name_objects (add_value type value) os = some os

unfoldable pub name_all : List Operation → List Object → Option (List Object)
name_all [] os = some os
name_all (p ∷ ps) os = given (name_objects p os) (name_all ps)

-- NAMING_CONVENTION of app/database.py
module _ (table : String) where
  abbrev pub ix : String → Bool → Object
  ix column is_unique = record {
    table = table;
    definition =
        index (str_append "ix_" (str_append table (str_append "_" column))) (column ∷ []) is_unique;
  }

  abbrev pub uq : String → Object
  uq column = record {
    table = table;
    definition =
        constraint
          (unique (str_append "uq_" (str_append table (str_append "_" column))) (column ∷ []));
  }

  abbrev pub fk : String → String → String → Object
  fk column referred ondelete = record {
    table = table;
    definition = constraint (
        foreign_key
          (str_append "fk_"
            (str_append table (str_append "_" (str_append column (str_append "_" referred)))))
          (column ∷ []) referred ("id" ∷ []) ondelete);
  }

  abbrev pub pk : Object
  pk = record {
    table = table;
    definition = constraint (primary_key (str_append "pk_" table) ("id" ∷ []));
  }

-- What each model declares, in the order in which the scripts have created it, the last first.
abbrev pub users_objects : List Object
users_objects = ix "users" "email" true ∷ pk "users" ∷ []

abbrev pub accounts_objects : List Object
accounts_objects =
    uq "accounts" "user_id"
    ∷ uq "accounts" "account_number"
    ∷ pk "accounts"
    ∷ fk "accounts" "user_id" "users" "CASCADE"
    ∷ []

abbrev pub refresh_tokens_objects : List Object
refresh_tokens_objects =
    ix "refresh_tokens" "user_id" false
    ∷ ix "refresh_tokens" "token_hash" true
    ∷ pk "refresh_tokens"
    ∷ fk "refresh_tokens" "user_id" "users" "CASCADE"
    ∷ []

-- `__table_args__` names its constraint
abbrev pub idempotency_keys_objects : List Object
idempotency_keys_objects =
    record {
      table = "idempotency_keys";
      definition =
          constraint
            (unique "uq_idempotency_keys_user_key_endpoint" ("user_id" ∷ "key" ∷ "endpoint" ∷ []));
    }
    ∷ pk "idempotency_keys"
    ∷ fk "idempotency_keys" "user_id" "users" "CASCADE"
    ∷ []

abbrev pub transactions_objects : List Object
transactions_objects =
    fk "transactions" "related_account_id" "accounts" "SET NULL"
    ∷ ix "transactions" "account_id" false
    ∷ pk "transactions"
    ∷ fk "transactions" "idempotency_key_id" "idempotency_keys" "SET NULL"
    ∷ fk "transactions" "account_id" "accounts" "CASCADE"
    ∷ []

abbrev pub webhook_events_objects : List Object
webhook_events_objects = ix "webhook_events" "event_id" true ∷ pk "webhook_events" ∷ []

abbrev pub declared_objects : List Object
declared_objects =
    webhook_events_objects
    ++ (transactions_objects
        ++ (idempotency_keys_objects
            ++ (refresh_tokens_objects ++ (accounts_objects ++ users_objects))))
