-- ===== src/Migrations/Again.antt =====
-- `alembic downgrade base` against the schema before `alembic upgrade head`.
use Prim.Native.String.{String}
use package.text.Mathlib.Text.{◌==◌}
use package.text.Mathlib.TextEquality.{eq_iff}
use banking_payments_api.Prelude.{
  ◌≡◌, refl, sym, ◌∙◌, false, Bool-cases, Option, none, some, inl, inr, arith, List, [], ◌∷◌,
  if◌then◌else◌,
}
use banking_payments_api.Migrations.{
  Schema, Column, Operation, perform_all, perform, assign, among, create_types, create_table,
}
use banking_payments_api.Migrations.Late.{created_transactions_columns, transactions_constraints}
use banking_payments_api.Migrations.Chain.{upgrade_head, downgrade_base}
use banking_payments_api.Migrations.Revised.{
  IsFree, with_columns, first_events_columns, users_and_accounts, refresh_tokens, idempotency_keys,
}
use banking_payments_api.Migrations.Head.{performed_all, head, with_users, upgrade_head-head}
use banking_payments_api.Migrations.Undone.{base, with_merchant, downgrade_base-base}

elsewhere :
    (k name : String) (v x y : Option (List Column))
    → (name == k) ≡ false
    → x ≡ y
    → (if name == k then v else x) ≡ y
elsewhere k name v x y other e = rw other e

module _ (g : String → Option (List Column)) where
  peel :
      (k : String) (ns : List String) (f : String → Option (List Column))
      → g k ≡ none
      → ((name : String) → among name (k ∷ ns) ≡ false → f name ≡ g name)
      → (name : String) → among name ns ≡ false
      → assign k none f name ≡ g name
  peel k ns f free h name apart = elim (Bool-cases (name == k)) [
    | inl same ↦ let p = (eq_iff name k).0 same in rw same (rw p (sym free))
    | inr other ↦ rw other (h name (rw (other, apart) refl))
  ]

-- a table whose enumeration is there already is not created
type_taken :
    (os : List Operation) (s : Schema) (members : List String)
    → s.columns "transactions" ≡ none
    → s.values "transaction_type" ≡ some members
    → perform_all
        (create_table "transactions" created_transactions_columns transactions_constraints ∷ os)
        s
      ≡ none
unfolding perform_all perform create_types
type_taken os s members free taken = rw free (rw taken refl)

abbrev first_tables : List String
first_tables = "idempotency_keys" ∷ "refresh_tokens" ∷ "accounts" ∷ "users" ∷ []

abbrev later_tables : List String
later_tables = "transactions" ∷ first_tables

module _ (s : Schema) (free : IsFree s) where
  untouched :
      (name : String)
      → among name ("webhook_events" ∷ later_tables) ≡ false
      → (with_columns "webhook_events" first_events_columns (head s)).columns name ≡ s.columns name
  untouched name apart = ground arith

  merchant_columns :
      (name : String)
      → among name later_tables ≡ false
      → (with_merchant s).columns name ≡ s.columns name
  merchant_columns name apart =
      let same =
        peel s.columns "webhook_events" later_tables
          (with_columns "webhook_events" first_events_columns (head s)).columns free.webhook_events
          untouched name apart in
      let other : (name == "transactions") ≡ false = ground arith in
      elsewhere "transactions" name _ _ _ other (elsewhere "transactions" name _ _ _ other same)

  restored_columns : (name : String) → (base s).columns name ≡ s.columns name
  restored_columns name =
      peel s.columns "users" [] _ free.users
        (peel s.columns "accounts" ("users" ∷ []) _ free.accounts (
          peel s.columns "refresh_tokens" ("accounts" ∷ "users" ∷ []) _ free.refresh_tokens (
            peel s.columns "idempotency_keys" ("refresh_tokens" ∷ "accounts" ∷ "users" ∷ []) _
              free.idempotency_keys
              (peel s.columns "transactions" first_tables (with_merchant s).columns
                free.transactions merchant_columns))))
        name refl

  not_again : upgrade_head (base s) ≡ none
  unfolding upgrade_head
  not_again =
      performed_all _ _ (base s) (users_and_accounts (base s) refl refl)
      ∙ (performed_all _ _ (with_users (base s)) (refresh_tokens (with_users (base s)) refl)
          ∙ (performed_all _ _ _ (idempotency_keys _ refl) ∙ type_taken _ _ _ refl refl))

-- In a schema where the names are free, `alembic downgrade base` behind `alembic upgrade head`
-- succeeds and restores every table, but it leaves the two enumeration types: a second
-- `alembic upgrade head` fails.
pub downgrade_base-upgrade_head :
    (s : Schema)
    → IsFree s
    → (h : Schema) × (b : Schema) × (upgrade_head s ≡ some h)
      × (downgrade_base h ≡ some b)
      × ((name : String) → b.columns name ≡ s.columns name)
      × (b.values "transaction_type" ≡ h.values "transaction_type")
      × (b.values "transaction_status" ≡ h.values "transaction_status")
      × (upgrade_head b ≡ none)
downgrade_base-upgrade_head s free = (
  head s,
  base s,
  upgrade_head-head s free,
  downgrade_base-base s,
  restored_columns s free,
  refl,
  refl,
  not_again s free,
)
