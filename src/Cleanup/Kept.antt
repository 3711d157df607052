-- ===== src/Cleanup/Kept.antt =====
-- What the cleanup job expires, what it deletes and what it keeps.
use banking_payments_api.Prelude.{
  ℕ, ◌+◌, ◌-◌, ◌*◌, ◌≡◌, refl, ap, ◌∙◌, some, List, [], ◌∷◌, map, true, not, ◌&&◌, ltb, inl, inr,
}
use banking_payments_api.Prelude.Int.{pos, ◌+ℤ◌}
use banking_payments_api.Prelude.Lists.{select}
use banking_payments_api.Store.Tables.{find, find-id, update}
use banking_payments_api.Store.Models.{
  Account, Transaction, Database, account_id, transaction_id, is_pending, failed,
}
use banking_payments_api.Store.Decimal.{fits_numeric}
use banking_payments_api.Store.Errors.{ok}
use banking_payments_api.Store.Schema.{
  with_balance, with_status, fits_description, is_live, is_retained, detach, apply, flush,
}
use banking_payments_api.Store.Session.{
  Session, >>=-of_ok, >>=-of_raise, Action-cases, commit, open_session,
}
use banking_payments_api.Store.Session.Loading.{
  IsClean, Loaded-balance, select-Loaded, open_session-IsClean,
}
use banking_payments_api.Ledger.Moves.{Moved, SameRecords, commit_flushed}
use banking_payments_api.Webhooks.Settled.{flush_refund}
use banking_payments_api.Cleanup.{
  expired_description, expire_one, expire_each, expire_stale_pending_transactions,
  cleanup_expired_idempotency_keys, cleanup_old_webhook_events, run_cleanup_job,
}
use banking_payments_api.Cleanup.Expiry.{expire_staged, expire_one-Moves}

-- A round for a pending transaction succeeds in any clean session, if the sender's account exists
-- and its new balance and the description with its note fit their columns. It gives the amount back
-- to the sender, marks the transaction as failed with the note in its description, changes nothing
-- else in the database, and counts one.
pub expire_one_refunds :
    (k : ℕ) (s : Session) (t : Transaction) (sender : Account)
    → IsClean s
    → find k s.store.transactions ≡ some t
    → is_pending t.status ≡ true
    → find t.account_id s.store.accounts ≡ some sender
    → fits_numeric (sender.balance +ℤ t.amount) ≡ true
    → fits_description (some (expired_description t.description)) ≡ true
    → (loaded : List Account) × (expire_one k s ≡ (
      ok 1,
      record s {
        store = record s.store {
          accounts =
              update t.account_id
                (with_balance s.now (sender.balance +ℤ t.amount))
                s.store.accounts;
          transactions =
              update k
                (with_status s.now failed (some (expired_description t.description)))
                s.store.transactions;
        };
        identity_map = loaded;
        unflushed = [];
      },
    ))
expire_one_refunds k s t sender clean there waiting held fits short =
    let (a, im, l) = select-Loaded t.account_id s sender held in
    let same : a.balance ≡ sender.balance =
      Loaded-balance t.account_id s sender a im clean.current l in
    let id : t.id ≡ k = find-id k t s.store.transactions there in
    let staged = expire_staged k s t there waiting l clean.flushed in
    (
      update t.account_id (λ r. record r { balance = sender.balance +ℤ t.amount }) im,
      (rw (same, l.id, id) at staged)
          ∙ commit_flushed 1 _ (
              flush_refund s.now t.account_id k (sender.balance +ℤ t.amount)
                (some (expired_description t.description)) s.store sender t held fits there short),
    )

SameRecords-trans : {a b c : Database} → SameRecords a b → SameRecords b c → SameRecords a c
SameRecords-trans f g = record {
  users = g.users ∙ f.users;
  refresh_tokens = g.refresh_tokens ∙ f.refresh_tokens;
  idempotency_keys = g.idempotency_keys ∙ f.idempotency_keys;
  webhook_events = g.webhook_events ∙ f.webhook_events;
}

SameRecords-of_eq : {a b : Database} → b ≡ a → SameRecords a b
SameRecords-of_eq e = record {
  users = ap (λ (x : Database). x.users) e;
  refresh_tokens = ap (λ (x : Database). x.refresh_tokens) e;
  idempotency_keys = ap (λ (x : Database). x.idempotency_keys) e;
  webhook_events = ap (λ (x : Database). x.webhook_events) e;
}

-- the loop touches accounts and transactions only
expire_each-SameRecords :
    (ks : List ℕ) (n : ℕ) (s : Session)
    → IsClean s
    → SameRecords s.store (expire_each ks n s).1.store
unfolding expire_each
expire_each-SameRecords [] n s clean = SameRecords-of_eq refl
expire_each-SameRecords (k ∷ ks) n s clean = elim (Action-cases (expire_one k) s) [
  | inl (i, s', e) ↦
      let moved : Moved SameRecords s.store (pos 0) s' = rw e at (expire_one-Moves k s clean) in
      rw (>>=-of_ok (expire_one k) (λ i. expire_each ks (n + i)) e)
        (SameRecords-trans moved.frame (expire_each-SameRecords ks (n + i) s' moved.clean))
  | inr (x, s', e) ↦
      let same : s'.store ≡ s.store = rw e at (expire_one-Moves k s clean) in
      rw (>>=-of_raise (expire_one k) (λ i. expire_each ks (n + i)) e) (SameRecords-of_eq same)
]

expire_stale-SameRecords :
    (s : Session) → IsClean s → SameRecords s.store (expire_stale_pending_transactions s).1.store
unfolding expire_stale_pending_transactions
expire_stale-SameRecords s clean = expire_each-SameRecords _ 0 s clean

-- However the expiry of payments ends, the job deletes exactly the keys that have expired and the
-- processed events of more than seven days, in their order, and touches no user and no refresh token.
pub run_cleanup_job_keeps :
    (now : ℕ) (db : Database)
    → ((run_cleanup_job now db).idempotency_keys
        ≡ select (λ k. not (ltb k.expires_at now)) db.idempotency_keys)
      × ((run_cleanup_job now db).webhook_events
          ≡ select (λ e. not (e.processed && ltb e.created_at (now - 7 * 86400))) db.webhook_events)
      × ((run_cleanup_job now db).users ≡ db.users)
      × ((run_cleanup_job now db).refresh_tokens ≡ db.refresh_tokens)
unfolding run_cleanup_job cleanup_expired_idempotency_keys cleanup_old_webhook_events commit flush
    apply
run_cleanup_job_keeps now db =
    let kept = select (is_live now) db.idempotency_keys in
    let cleaned : Database = record db {
      idempotency_keys = kept;
      transactions = map (detach kept) db.transactions;
      webhook_events = select (is_retained (now - 7 * 86400)) db.webhook_events;
    } in
    let f =
      expire_stale-SameRecords (open_session now cleaned) (open_session-IsClean now cleaned) in
    (f.idempotency_keys, f.webhook_events, f.users, f.refresh_tokens)
