-- ===== src/Store/Schema.antt =====
-- The constraints that app/models/*.py declare, checked as a change is written: primary keys,
-- unique columns, foreign keys, lengths of texts and the range of `Numeric(12, 2)`.
use Prim.Native.String.{String, count}
use text.Mathlib.Text.{◌==◌ as str_eq}
use banking_payments_api.Prelude.{
  ℕ, ◌≡◌, refl, arith, Bool, true, false, ◌&&◌, ◌||◌, not, Option, none, some, List, [], ◌∷◌, map,
  ltb, leb, ◌==◌, if◌then◌else◌,
}
use banking_payments_api.Prelude.Int.{ℤ}
use banking_payments_api.Prelude.Lists.{length, select}
use banking_payments_api.Store.Tables.{HasId, find, update}
use banking_payments_api.Store.Models.{
  Database, User, Account, RefreshToken, refresh_token_id, Transaction, TransactionStatus,
  IdempotencyKey, WebhookEvent, user_id, account_id, idempotency_key_id, transaction_id,
  webhook_event_id,
}
use banking_payments_api.Store.Decimal.{fits_numeric}
use banking_payments_api.Store.Errors.{
  Exc, Outcome, ok, raise, integrity_error, data_error, stale_data, ◌>>=◌,
}

module _ {A : Type 0} where
  abbrev pub exists : ⦃r : HasId A⦄ → ℕ → List A → Bool
  exists k rows = elim (find k rows) [ none ↦ false | some _ ↦ true ]

  abbrev pub any_row : (A → Bool) → List A → Bool
  any_row p [] = false
  any_row p (x ∷ xs) = p x || any_row p xs

  -- a nullable foreign key
  abbrev refers : ⦃r : HasId A⦄ → Option ℕ → List A → Bool
  refers none rows = true
  refers (some k) rows = exists k rows

pub select_none :
    {A : Type 0} (p : A → Bool) (rows : List A) → any_row p rows ≡ false → select p rows ≡ []
select_none p [] h = refl
select_none p (x ∷ xs) h = ground (arith, select_none p xs)

abbrev pub description_limit : ℕ
description_limit = 255

-- `String(255)`, nullable
abbrev pub fits_description : Option (List ℕ) → Bool
fits_description none = true
fits_description (some d) = leb (length d) description_limit

abbrev pub fits : ℕ → String → Bool
fits n s = leb (count s) n

-- what PostgreSQL answers to a row: `none` if it may be inserted
unfoldable pub transaction_error : Database → Transaction → Option Exc
transaction_error db t =
    if not (fits_numeric t.amount && fits_description t.description)
    then some data_error
    else if exists t.id db.transactions
        || not (
            exists t.account_id db.accounts
            && (refers t.related_account_id db.accounts
                && refers t.idempotency_key_id db.idempotency_keys))
    then some integrity_error
    else none

-- the columns of `uq_idempotency_keys_user_key_endpoint`
abbrev pub same_key : ℕ → String → String → IdempotencyKey → Bool
same_key user key endpoint k = k.user_id == user && (str_eq k.key key && str_eq k.endpoint endpoint)

unfoldable pub key_error : Database → IdempotencyKey → Option Exc
key_error db k =
    if not (fits 255 k.key && (fits 255 k.endpoint && fits 64 k.request_hash))
    then some data_error
    else if exists k.id db.idempotency_keys
        || (any_row (same_key k.user_id k.key k.endpoint) db.idempotency_keys
            || not (exists k.user_id db.users))
    then some integrity_error
    else none

abbrev pub same_event : String → WebhookEvent → Bool
same_event event_id e = str_eq e.event_id event_id

unfoldable pub event_error : Database → WebhookEvent → Option Exc
event_error db e =
    if not (fits 255 e.event_id && fits 50 e.event_type)
    then some data_error
    else if exists e.id db.webhook_events || any_row (same_event e.event_id) db.webhook_events
    then some integrity_error
    else none

abbrev pub same_hash : String → RefreshToken → Bool
same_hash token_hash t = str_eq t.token_hash token_hash

unfoldable pub refresh_token_error : Database → RefreshToken → Option Exc
refresh_token_error db t =
    if not (fits 64 t.token_hash)
    then some data_error
    else if exists t.id db.refresh_tokens
        || (any_row (same_hash t.token_hash) db.refresh_tokens || not (exists t.user_id db.users))
    then some integrity_error
    else none

abbrev pub same_email : String → User → Bool
same_email email u = str_eq u.email email

unfoldable pub user_error : Database → User → Option Exc
user_error db u =
    if not (fits 255 u.email && (fits 255 u.hashed_password && fits 255 u.full_name))
    then some data_error
    else if exists u.id db.users || any_row (same_email u.email) db.users
    then some integrity_error
    else none

unfoldable pub account_error : Database → Account → Option Exc
account_error db a =
    if not (fits_numeric a.balance && (fits 34 a.account_number && fits 3 a.currency))
    then some data_error
    else if exists a.id db.accounts
        || (any_row (λ (x : Account). x.user_id == a.user_id) db.accounts
            || (any_row (λ (x : Account). str_eq x.account_number a.account_number) db.accounts
                || not (exists a.user_id db.users)))
    then some integrity_error
    else none

-- What a session writes at a commit: rows that `db.add` registered, columns of loaded rows that were
-- assigned, and `delete` statements.
pub data Change : Type 0 where
  insert_transaction : Transaction → Change
  insert_key : IdempotencyKey → Change
  insert_event : WebhookEvent → Change
  insert_user : User → Change
  insert_account : Account → Change
  insert_refresh_token : RefreshToken → Change
  set_revoked : ℕ → Change
  set_balance : ℕ → ℤ → Change
  set_status : ℕ → TransactionStatus → Option (List ℕ) → Change
  set_response : ℕ → ℕ → String → Change
  set_processed : ℕ → Change
  set_error : ℕ → String → Change
  delete_keys_before delete_events_before : ℕ → Change

-- `onupdate=func.now()`
abbrev pub with_balance : ℕ → ℤ → Account → Account
with_balance now balance a = record a { balance = balance; updated_at = now }

abbrev pub with_status : ℕ → TransactionStatus → Option (List ℕ) → Transaction → Transaction
with_status now status description t = record t {
  status = status;
  description = description;
  updated_at = now;
}

abbrev pub with_response : ℕ → String → IdempotencyKey → IdempotencyKey
with_response code body k = record k { status_code = some code; response_body = some body }

abbrev pub as_processed : WebhookEvent → WebhookEvent
as_processed e = record e { processed = true }

abbrev pub with_error : String → WebhookEvent → WebhookEvent
with_error message e = record e { error_message = some message }

abbrev pub as_revoked : RefreshToken → RefreshToken
as_revoked t = record t { revoked = true }

-- `ondelete="SET NULL"` on `Transaction.idempotency_key_id`
abbrev pub detach : List IdempotencyKey → Transaction → Transaction
detach kept t =
    if refers t.idempotency_key_id kept then t else record t { idempotency_key_id = none }

abbrev pub is_live : ℕ → IdempotencyKey → Bool
is_live now k = not (ltb k.expires_at now)

abbrev pub is_retained : ℕ → WebhookEvent → Bool
is_retained cutoff e = not (e.processed && ltb e.created_at cutoff)

abbrev pub unless : {A : Type 0} → Option Exc → A → Outcome A
unless none a = ok a
unless (some e) a = raise e

abbrev pub if_found : {A B : Type 0} → Option A → Outcome B → Outcome B
if_found none r = raise stale_data
if_found (some _) r = r

-- one statement of a flush, at the time `now`
unfoldable pub apply : ℕ → Change → Database → Outcome Database
apply now (insert_transaction t) db =
    unless (transaction_error db t) (record db { transactions = t ∷ db.transactions })
apply now (insert_key k) db =
    unless (key_error db k) (record db { idempotency_keys = k ∷ db.idempotency_keys })
apply now (insert_event e) db =
    unless (event_error db e) (record db { webhook_events = e ∷ db.webhook_events })
apply now (insert_user u) db = unless (user_error db u) (record db { users = u ∷ db.users })
apply now (insert_account a) db =
    unless (account_error db a) (record db { accounts = a ∷ db.accounts })
apply now (insert_refresh_token t) db =
    unless (refresh_token_error db t) (record db { refresh_tokens = t ∷ db.refresh_tokens })
apply now (set_revoked k) db =
    if_found (find k db.refresh_tokens)
      (ok (record db { refresh_tokens = update k as_revoked db.refresh_tokens }))
apply now (set_balance k balance) db = if_found (find k db.accounts) (
    if fits_numeric balance
    then ok (record db { accounts = update k (with_balance now balance) db.accounts })
    else raise data_error)
apply now (set_status k status description) db = if_found (find k db.transactions) (
    if fits_description description
    then ok
        (record db { transactions = update k (with_status now status description) db.transactions })
    else raise data_error)
apply now (set_response k code body) db =
    if_found (find k db.idempotency_keys)
      (ok (record db { idempotency_keys = update k (with_response code body) db.idempotency_keys }))
apply now (set_processed k) db =
    if_found (find k db.webhook_events)
      (ok (record db { webhook_events = update k as_processed db.webhook_events }))
apply now (set_error k message) db =
    if_found (find k db.webhook_events)
      (ok (record db { webhook_events = update k (with_error message) db.webhook_events }))
apply now (delete_keys_before time) db =
    let kept = select (is_live time) db.idempotency_keys in
    ok (record db { idempotency_keys = kept; transactions = map (detach kept) db.transactions })
apply now (delete_events_before cutoff) db =
    ok (record db { webhook_events = select (is_retained cutoff) db.webhook_events })

-- a flush is one transaction: it writes all its changes, or none
unfoldable pub flush : ℕ → List Change → Database → Outcome Database
flush now [] db = ok db
flush now (c ∷ cs) db = apply now c db >>= flush now cs
