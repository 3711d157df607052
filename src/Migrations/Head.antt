-- ===== src/Migrations/Head.antt =====
-- What `alembic upgrade head` leaves, compared with the models.
use Prim.Native.String.{String}
use mathlib.Core.List.{Perm, perm_append_singleton}
use mathlib.Core.List.Perm
use banking_payments_api.Prelude.{
  given, ◌≡◌, ◌≢◌, refl, ap, ◌∙◌, none, some, Option, Bool, true, false, Option-cases, inl, inr,
  arith, List, [], ◌∷◌, ◌++◌, map,
}
use banking_payments_api.Migrations.{
  Schema, Column, Operation, among, stored, perform_all, perform, optional, uuid,
}
use banking_payments_api.Migrations.Chain.{upgrade_head}
use banking_payments_api.Migrations.Declared.{
  users_columns, accounts_columns, refresh_tokens_columns, idempotency_keys_columns, status_names,
  type_names, webhook_events_columns, transactions_columns,
}
use banking_payments_api.Migrations.Revised.{
  IsFree, with_columns, with_values, first_transactions_columns, last_transactions_columns,
  first_events_columns, users_and_accounts, refresh_tokens, idempotency_keys, transactions,
  related_account, transfer_in_value, webhook_events, error_message,
}

pub performed_all :
    (os ps : List Operation) (s : Schema) {s' : Schema}
    → perform_all os s ≡ some s'
    → perform_all (os ++ ps) s ≡ perform_all ps s'
unfolding perform_all
performed_all [] ps s e = ap (λ r. given r (perform_all ps)) e
performed_all (o ∷ os) ps s e = elim (Option-cases (perform o s)) [
  | inl refused ↦ absurd (ground arith)
  | inr (next, done) ↦ rw done (performed_all os ps next (rw done at e))
]

-- the schema at each revision that changes it
module _ (s : Schema) where
  abbrev pub with_users : Schema
  with_users = with_columns "accounts" accounts_columns (with_columns "users" users_columns s)

  abbrev pub with_keys : Schema
  with_keys =
      with_columns "idempotency_keys" idempotency_keys_columns
        (with_columns "refresh_tokens" refresh_tokens_columns with_users)

  abbrev pub with_transactions : Schema
  with_transactions = with_columns "transactions" first_transactions_columns (
      with_values "transaction_status" status_names
        (with_values "transaction_type" ("DEPOSIT" ∷ "PAYMENT" ∷ []) with_keys))

  abbrev pub with_related : Schema
  with_related = with_columns "transactions" last_transactions_columns (
      with_columns "transactions"
        (first_transactions_columns ++ (optional "related_account_id" uuid ∷ [])) with_transactions)

  abbrev pub with_transfers : Schema
  with_transfers =
      with_values "transaction_type" ("DEPOSIT" ∷ "PAYMENT" ∷ "transfer_in" ∷ []) with_related

  abbrev pub head : Schema
  head =
      with_columns "webhook_events" webhook_events_columns
        (with_columns "webhook_events" first_events_columns with_transfers)

  pub upgrade_head-head : IsFree s → upgrade_head s ≡ some head
  unfolding upgrade_head
  upgrade_head-head free =
      performed_all _ _ s (users_and_accounts s free.users free.accounts)
      ∙ (performed_all _ _ with_users (refresh_tokens with_users free.refresh_tokens)
          ∙ (performed_all _ _ _ (idempotency_keys _ free.idempotency_keys)
              ∙ (performed_all _ _ with_keys (
                    transactions with_keys free.transactions free.transaction_type
                      free.transaction_status)
                  ∙ (performed_all _ _ with_transactions (related_account with_transactions refl)
                      ∙ (performed_all _ _ with_related (transfer_in_value with_related refl)
                          ∙ (performed_all _ _ with_transfers
                                (webhook_events with_transfers free.webhook_events)
                              ∙ error_message _ refl))))))

-- In any schema where the names are free, `alembic upgrade head` succeeds. It leaves the tables that
-- the models declare, with the declared columns, apart from the members of the enumeration types: in
-- the declared order, but for `related_account_id` of the transactions, which stands last. The type
-- `transaction_status` has the members that the model declares. The type `transaction_type` has
-- DEPOSIT, PAYMENT and transfer_in, which are not the members that the model declares.
pub upgrade_head-columns :
    (s : Schema)
    → IsFree s
    → (h : Schema) × (upgrade_head s ≡ some h)
      × (h.columns "users" ≡ some (map stored users_columns))
      × (h.columns "accounts" ≡ some (map stored accounts_columns))
      × (h.columns "refresh_tokens" ≡ some (map stored refresh_tokens_columns))
      × (h.columns "idempotency_keys" ≡ some (map stored idempotency_keys_columns))
      × (h.columns "webhook_events" ≡ some (map stored webhook_events_columns))
      × ((cols : List Column) × (h.columns "transactions" ≡ some cols)
          × Perm cols (map stored transactions_columns))
      × (h.values "transaction_status" ≡ some status_names)
      × (h.values "transaction_type" ≡ some ("DEPOSIT" ∷ "PAYMENT" ∷ "transfer_in" ∷ []))
      × (h.values "transaction_type" ≢ some type_names)
upgrade_head-columns s free = (
  head s,
  upgrade_head-head s free,
  refl,
  refl,
  refl,
  refl,
  refl,
  (map stored last_transactions_columns, refl, same_columns),
  refl,
  refl,
  other_names,
)
  where
    other_names : (head s).values "transaction_type" ≢ some type_names
    other_names e =
        let known : Option (List String) → Bool =
          λ o. elim o [ none ↦ false | some members ↦ among "transfer_in" members ] in
        let differs : true ≡ false = ap known e in absurd (ground arith)

    same_columns : Perm (map stored last_transactions_columns) (map stored transactions_columns)
    same_columns =
        Perm.cons _ (Perm.cons _ (perm_append_singleton (optional "related_account_id" uuid) _))
