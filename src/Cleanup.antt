-- ===== src/Cleanup.antt =====
-- app/services/cleanup.py, and the job of app/scheduler.py that runs it hourly.
pub mod Expiry
pub mod Kept
pub mod Stale
pub mod Complete
use Prim.Native.String.{String}
use Prim.Native.Char.{code}
use mathlib.Core.List.{reverse}
use banking_payments_api.Prelude.{
  ℕ, ◌+◌, ◌-◌, ◌*◌, Bool, true, false, ◌&&◌, ◌||◌, not, Option, none, some, List, [], ◌∷◌, ◌++◌,
  map, ltb, leb, ◌==◌, if◌then◌else◌,
}
use banking_payments_api.Prelude.Int.{ℤ, ◌+ℤ◌}
use banking_payments_api.Prelude.Lists.{length, select}
use banking_payments_api.Store.Tables.{find}
use banking_payments_api.Store.Models.{
  Account, Transaction, TransactionStatus, Database, IdempotencyKey, WebhookEvent, is_pending,
  is_payment, transaction_id,
}
use banking_payments_api.Store.Errors.{Outcome, ok, raise}
use banking_payments_api.Store.Schema.{
  delete_keys_before, delete_events_before, set_status, is_live, is_retained,
}
use banking_payments_api.Store.Session.{
  Session, Action, pure, gets, scalar_one, ◌>>=◌, ◌>>◌, register, commit, open_session,
  select_account, assign_balance,
}

abbrev pub webhook_event_retention_days : ℕ
webhook_event_retention_days = 7

abbrev pub pending_transaction_timeout_hours : ℕ
pending_transaction_timeout_hours = 24

-- A `delete` statement answers with the number of its rows.
unfoldable pub cleanup_expired_idempotency_keys : Action ℕ
cleanup_expired_idempotency_keys = do
  now ← gets (λ s. s.now)
  rowcount ← gets (λ s. length (select (λ k. not (is_live now k)) s.store.idempotency_keys))
  register (delete_keys_before now)
  commit
  pure rowcount

unfoldable pub cleanup_old_webhook_events : Action ℕ
cleanup_old_webhook_events = do
  now ← gets (λ s. s.now)
  let cutoff = now - webhook_event_retention_days * 86400
  rowcount ← gets (λ s. length (select (λ e. not (is_retained cutoff e)) s.store.webhook_events))
  register (delete_events_before cutoff)
  commit
  pure rowcount

-- Python's `str.strip`: the white space of `str.isspace` goes at both ends.
abbrev is_space : ℕ → Bool
is_space c =
    (leb 9 c && leb c 13)
    || ((leb 28 c && leb c 32)
        || (c == 133
            || (c == 160
                || (c == 5760
                    || ((leb 8192 c && leb c 8202)
                        || (c == 8232
                            || (c == 8233 || (c == 8239 || (c == 8287 || c == 12288)))))))))

unfoldable pub lstrip : List ℕ → List ℕ
lstrip [] = []
lstrip (c ∷ cs) = let rest = lstrip cs in if is_space c then rest else c ∷ cs

unfoldable pub strip : List ℕ → List ℕ
unfolding lstrip
strip cs = reverse (lstrip (reverse (lstrip cs)))

abbrev codes : String → List ℕ
codes String.[] = []
codes (String.◌∷◌ c s) = code c ∷ codes s

abbrev pub or_empty : Option (List ℕ) → List ℕ
or_empty none = []
or_empty (some d) = d

abbrev pub expiry_note : List ℕ
expiry_note = codes " [auto-expired by cleanup job]"

unfoldable pub expired_description : Option (List ℕ) → List ℕ
unfolding strip
expired_description description = strip (or_empty description ++ expiry_note)

abbrev pub is_stale : ℕ → Transaction → Bool
is_stale cutoff t = is_pending t.status && (is_payment t.type && ltb t.created_at cutoff)

-- one round of the loop: 1 if the transaction expired, 0 on `continue`
unfoldable pub expire_found : Option Transaction → Action ℕ
expire_found none = pure 0
expire_found (some transaction) = if not (is_pending transaction.status) then pure 0 else do
  sender ← select_account transaction.account_id >>= scalar_one
  assign_balance sender (sender.balance +ℤ transaction.amount)
  register (
      set_status transaction.id TransactionStatus.failed
        (some (expired_description transaction.description)))
  commit
  pure 1

unfoldable pub expire_one : ℕ → Action ℕ
unfolding expire_found
expire_one transaction_id = do
  found ← gets (λ s. find transaction_id s.store.transactions)
  expire_found found

unfoldable pub expire_each : List ℕ → ℕ → Action ℕ
expire_each [] expired_count = pure expired_count
expire_each (k ∷ ks) expired_count = do n ← expire_one k; expire_each ks (expired_count + n)

unfoldable pub expire_stale_pending_transactions : Action ℕ
expire_stale_pending_transactions = do
  now ← gets (λ s. s.now)
  let cutoff = now - pending_transaction_timeout_hours * 3600
  stale_ids ←
      gets (λ s. map (λ (t : Transaction). t.id) (select (is_stale cutoff) s.store.transactions))
  expire_each stale_ids 0

-- `run_cleanup_job` of app/scheduler.py; `except Exception` ends the job and leaves what is committed
unfoldable pub run_cleanup_job : ℕ → Database → Database
run_cleanup_job now db =
    let (r, s) =
      (cleanup_expired_idempotency_keys >>= λ deleted_keys.
      cleanup_old_webhook_events >>= λ deleted_events. expire_stale_pending_transactions)
        (open_session now db) in
    s.store
