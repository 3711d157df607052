-- ===== src/Migrations/Constraints.antt =====
-- The constraints and indexes that `alembic upgrade head` leaves are those that the models declare.
use Prim.Native.String.{String}
use package.text.Mathlib.Text.{◌==◌}
use package.text.Mathlib.TextEquality.{eq_iff}
use banking_payments_api.Prelude.{
  Bool-cases, ◌≡◌, refl, true, false, not, none, some, List, [], ◌∷◌, ◌++◌, arith, inl, inr,
}
use banking_payments_api.Prelude.Lists.{All, select}
use banking_payments_api.Migrations.{among}
use banking_payments_api.Migrations.Chain.{upgrades, revisions, downgrades}
use banking_payments_api.Migrations.Named.{
  Object, name_of, lookup, stands_on, is_referred, refers as object_refers, name_objects, name_all,
  declared_objects,
}

abbrev names_of : List Object → List String
names_of [] = []
names_of (o ∷ os) = name_of o.definition ∷ names_of os

abbrev pub declared_tables : List String
declared_tables =
    "users" ∷ "accounts" ∷ "refresh_tokens" ∷ "idempotency_keys" ∷ "transactions" ∷ "webhook_events"
    ∷ []

-- An object of another table, with another name than those that the models declare, which is no
-- foreign key to their tables
pub record IsApart (o : Object) : Type 0 where
  pub table : among o.table declared_tables ≡ false
  pub name : among (name_of o.definition) (names_of declared_objects) ≡ false
  pub refers : (t : String) → among t declared_tables ≡ true → object_refers t o ≡ false

among_same :
    (x y : String) (xs : List String) → among y xs ≡ true → (x == y) ≡ true → among x xs ≡ true
among_same x y xs h same = let p : x ≡ y = (eq_iff x y).0 same in rw p h

absent :
    (name : String) (others : List Object)
    → All IsApart others
    → among name (names_of declared_objects) ≡ true
    → lookup name others ≡ none
absent name [] apart ours = refl
absent name (o ∷ os) apart ours = elim (Bool-cases (name_of o.definition == name)) [
  | inl same ↦
      let p = among_same (name_of o.definition) name (names_of declared_objects) ours same in
      let q = apart.0.name in absurd (ground arith)
  | inr other ↦ rw other (absent name os apart.1 ours)
]

-- dropping an index or a constraint leaves what has another name
select-name :
    (name : String) (others : List Object)
    → All IsApart others
    → among name (names_of declared_objects) ≡ true
    → select (λ o. not (name_of o.definition == name)) others ≡ others
select-name name [] apart ours = refl
select-name name (o ∷ os) apart ours = elim (Bool-cases (name_of o.definition == name)) [
  | inl same ↦
      let p = among_same (name_of o.definition) name (names_of declared_objects) ours same in
      let q = apart.0.name in absurd (ground arith)
  | inr other ↦ rw (other, select-name name os apart.1 ours) refl
]

-- dropping a table leaves what is on other tables
select-table :
    (table : String) (others : List Object)
    → All IsApart others
    → among table declared_tables ≡ true
    → select (λ o. not (o.table == table)) others ≡ others
select-table table [] apart ours = refl
select-table table (o ∷ os) apart ours = elim (Bool-cases (o.table == table)) [
  | inl same ↦
      let p = among_same o.table table declared_tables ours same in
      let q = apart.0.table in absurd (ground arith)
  | inr other ↦ rw (other, select-table table os apart.1 ours) refl
]

unreferred :
    (table : String) (others : List Object)
    → All IsApart others
    → among table declared_tables ≡ true
    → is_referred table others ≡ false
unreferred table [] apart ours = refl
unreferred table (o ∷ os) apart ours =
    rw (apart.0.refers table ours, unreferred table os apart.1 ours) refl

-- dropping a column of a declared table leaves what is on other tables
select-stands_on :
    (table column : String) (others : List Object)
    → All IsApart others
    → among table declared_tables ≡ true
    → select (λ o. not (stands_on table column o)) others ≡ others
select-stands_on table column [] apart ours = refl
select-stands_on table column (o ∷ os) apart ours = elim (Bool-cases (o.table == table)) [
  | inl same ↦
      let p = among_same o.table table declared_tables ours same in
      let q = apart.0.table in absurd (ground arith)
  | inr other ↦ rw (other, select-stands_on table column os apart.1 ours) refl
]

module _ (others : List Object) (apart : All IsApart others) where
  upgraded : name_all (upgrades revisions) others ≡ some (declared_objects ++ others)
  unfolding name_all name_objects
  upgraded =
      let free =
        λ (n : String) (h : among n (names_of declared_objects) ≡ true). absent n others apart h in
      rw
        (
          free "pk_users" refl,
          free "ix_users_email" refl,
          free "fk_accounts_user_id_users" refl,
          free "pk_accounts" refl,
          free "uq_accounts_account_number" refl,
          free "uq_accounts_user_id" refl,
          free "fk_refresh_tokens_user_id_users" refl,
          free "pk_refresh_tokens" refl,
          free "ix_refresh_tokens_token_hash" refl,
          free "ix_refresh_tokens_user_id" refl,
          free "fk_idempotency_keys_user_id_users" refl,
          free "pk_idempotency_keys" refl,
          free "uq_idempotency_keys_user_key_endpoint" refl,
          free "fk_transactions_account_id_accounts" refl,
          free "fk_transactions_idempotency_key_id_idempotency_keys" refl,
          free "pk_transactions" refl,
          free "ix_transactions_account_id" refl,
          free "fk_transactions_related_account_id_accounts" refl,
          select-stands_on "transactions" "merchant_name" others apart refl,
          free "pk_webhook_events" refl,
          free "ix_webhook_events_event_id" refl,
        )
        refl

  downgraded : name_all (downgrades revisions) (declared_objects ++ others) ≡ some others
  unfolding name_all name_objects
  downgraded =
      let named = λ (n : String) (h : among n (names_of declared_objects) ≡ true).
        select-name n others apart h in
      let tabled =
        λ (t : String) (h : among t declared_tables ≡ true). select-table t others apart h in
      let column = λ (t c : String) (h : among t declared_tables ≡ true).
        select-stands_on t c others apart h in
      let unreferred_by =
        λ (t : String) (h : among t declared_tables ≡ true). unreferred t others apart h in
      rw
        (
          column "webhook_events" "error_message" refl,
          named "ix_webhook_events_event_id" refl,
          unreferred_by "webhook_events" refl,
          tabled "webhook_events" refl,
          named "fk_transactions_related_account_id_accounts" refl,
          column "transactions" "related_account_id" refl,
          named "ix_transactions_account_id" refl,
          unreferred_by "transactions" refl,
          tabled "transactions" refl,
          unreferred_by "idempotency_keys" refl,
          tabled "idempotency_keys" refl,
          named "ix_refresh_tokens_user_id" refl,
          named "ix_refresh_tokens_token_hash" refl,
          unreferred_by "refresh_tokens" refl,
          tabled "refresh_tokens" refl,
          unreferred_by "accounts" refl,
          tabled "accounts" refl,
          named "ix_users_email" refl,
          unreferred_by "users" refl,
          tabled "users" refl,
        )
        refl

-- In a database whose other constraints and indexes are on other tables than the models', have other
-- names than the models' and are no foreign keys to the models' tables, `alembic upgrade head`
-- creates every constraint and index of the scripts and then holds exactly those that the models
-- declare, under the names that the naming convention or the model gives, beside the others; and
-- `alembic downgrade base` from there drops exactly those again.
pub migrated-declared_objects :
    (others : List Object)
    → All IsApart others
    → (name_all (upgrades revisions) others ≡ some (declared_objects ++ others))
      × (name_all (downgrades revisions) (declared_objects ++ others) ≡ some others)
migrated-declared_objects others apart = (upgraded others apart, downgraded others apart)
