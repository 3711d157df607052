-- ===== src/Cleanup/Expiry.antt =====
-- The cleanup job and the funds of the bank.
use mathlib.Core.Path.{subst, fun_ext}
use banking_payments_api.Prelude.{
  ℕ, ◌+◌, ◌≡◌, refl, sym, some, List, [], ◌∷◌, map, true, arith, inl, inr, Option-cases, Bool-cases,
}
use banking_payments_api.Prelude.Int.{pos, ◌+ℤ◌, ◌-ℤ◌, +ℤ_zero, add_nonneg, int_laws}
use banking_payments_api.Prelude.Lists.{select, total-map}
use banking_payments_api.Store.Tables.{find, find-id, update, All-find}
use banking_payments_api.Store.Models.{
  Account, Transaction, Database, IdempotencyKey, account_id, transaction_id, is_pending, failed,
}
use banking_payments_api.Store.Errors.{ok}
use banking_payments_api.Store.Schema.{
  set_balance, set_status, delete_keys_before, delete_events_before, apply, flush, detach, is_live,
  is_retained,
}
use banking_payments_api.Store.Session.{
  Session, assign_balance, commit, pure, ◌>>◌, ◌>>=◌, open_session,
}
use banking_payments_api.Store.Session.Loading.{
  AreCurrent, IsClean, Loaded, open_session-IsClean, select_missing, select-Loaded,
}
use banking_payments_api.Ledger.{funds, held_by}
use banking_payments_api.Ledger.Moves.{
  Moves, Frame, Moved-refl, SameRecords, SameAccounts, Flushed, commit-Moves, staged-Moves,
}
use banking_payments_api.Ledger.Composing.{
  Keeps, Closed, Safe, Safe-Closed, bind-Keeps, kept-Keeps, Moves-IsSafe,
}
use banking_payments_api.Book.View.{entry_in}
use banking_payments_api.Ledger.Sound.{IsSound, IsPositive, All-detach, Loaded-nonneg}
use banking_payments_api.Ledger.Settlement.{Adds-status, find-set_balance}
use banking_payments_api.Cleanup.{
  expired_description, expire_one, expire_each, expire_stale_pending_transactions,
  cleanup_expired_idempotency_keys, cleanup_old_webhook_events, run_cleanup_job,
}

module _ (k : ℕ) (s : Session) (t : Transaction) {row a : Account} {im : List Account}
    (found : find k s.store.transactions ≡ some t) (waiting : is_pending t.status ≡ true)
    (l : Loaded t.account_id s row a im) (clean : s.unflushed ≡ []) where
  pub expire_staged :
      expire_one k s
      ≡ (commit >> pure 1) (record s {
        identity_map = update a.id (λ r. record r { balance = a.balance +ℤ t.amount }) im;
        unflushed =
            set_balance a.id (a.balance +ℤ t.amount)
            ∷ set_status t.id failed (some (expired_description t.description))
            ∷ [];
      })
  unfolding expire_one assign_balance
  expire_staged = ground (arith, l.selected)

-- One round in a clean session either raises and writes nothing, or it gives a pending transaction's
-- money back to its sender or changes nothing: the funds stay as they were, no balance is negative if
-- none was, no other table changes, and the session is clean again.
pub expire_one-Moves :
    (k : ℕ) (s : Session) → IsClean s → Moves SameRecords s.store (pos 0) (expire_one k s)
expire_one-Moves k s clean = elim (Option-cases (find k s.store.transactions)) [
  | inl gone ↦
      let e : expire_one k s ≡ (ok 0, s) = unfold expire_one in ground arith in
      rw e (Moved-refl s clean)
  | inr (t, found) ↦ elim (Bool-cases (is_pending t.status)) [
    | inr settled ↦
        let e : expire_one k s ≡ (ok 0, s) = unfold expire_one in ground arith in
        rw e (Moved-refl s clean)
    | inl waiting ↦ elim (Option-cases (find t.account_id s.store.accounts)) [
      | inl absent ↦ unfold expire_one in ground (arith, select_missing t.account_id s absent)
      | inr (row, held) ↦
          let (a, im, l) = select-Loaded t.account_id s row held in
          rw (expire_staged k s t found waiting l clean.flushed) (
            staged-Moves 1 t.account_id s row a im (a.balance +ℤ t.amount) (pos 0 -ℤ t.amount)
              (pos 0) _ clean.current l (omega int_laws)
              (λ h.
                add_nonneg a.balance t.amount
                  (Loaded-nonneg t.account_id s row a im clean.current l h)
                  (All-find IsPositive k t s.store.transactions h.positive found))
              (λ mid e. Adds-status s.now failed _ t.id t s.store mid refl waiting (
                find-set_balance s.now a.id _ t.id t s.store mid e (
                  subst (λ n. find n s.store.transactions ≡ some t)
                    (sym (find-id k t s.store.transactions found)) found))))
    ]
  ]
]

held_by-detach :
    (kept : List IdempotencyKey) (t : Transaction) → held_by (detach kept t) ≡ held_by t
unfolding held_by
held_by-detach kept t = ground arith

-- The book does not know the keys.
pub entry_in-detach :
    (kept : List IdempotencyKey) (rows : List Transaction)
    → entry_in (map (detach kept) rows) ≡ entry_in rows
entry_in-detach kept rows = fun_ext (λ k. found rows k)
  where
    found :
        (rows : List Transaction) (k : ℕ) → entry_in (map (detach kept) rows) k ≡ entry_in rows k
    found [] k = refl
    found (t ∷ rows) k = ground (arith, found rows k)

-- Deleting keys and events keeps the funds.
keys_deleted :
    (now time : ℕ) (db db' : Database)
    → flush now (delete_keys_before time ∷ []) db ≡ ok db'
    → Flushed SameAccounts (pos 0) db db'
unfolding flush apply funds
keys_deleted now time db db' e =
    let kept = select (is_live time) db.idempotency_keys in
    let written : db'
        ≡ record db { idempotency_keys = kept; transactions = map (detach kept) db.transactions } =
      ground arith in
    rw written (record {
      funds =
          rw (total-map held_by (detach kept) db.transactions (held_by-detach kept))
            (sym (+ℤ_zero (funds db)));
      sound = λ h. record {
        solvent = h.solvent;
        positive = All-detach kept db.transactions h.positive;
      };
      frame = record { accounts = refl; entries = entry_in-detach kept db.transactions };
    })

events_deleted :
    (now time : ℕ) (db db' : Database)
    → flush now (delete_events_before time ∷ []) db ≡ ok db'
    → Flushed SameAccounts (pos 0) db db'
unfolding flush apply funds
events_deleted now time db db' e =
    let written : db' ≡ record db { webhook_events = select (is_retained time) db.webhook_events } =
      ground arith in
    rw written (record {
      funds = sym (+ℤ_zero (funds db));
      sound = λ h. record { solvent = h.solvent; positive = h.positive };
      frame = record { accounts = refl; entries = refl };
    })

still_current :
    (s : Session) (db' : Database)
    → IsClean s
    → Flushed SameAccounts (pos 0) s.store db'
    → Flushed SameAccounts (pos 0) s.store db' × AreCurrent s.identity_map db'.accounts
still_current s db' clean f = (f, rw f.frame.accounts clean.current)

-- The first two steps of the job keep the funds and end between two transactions.
pub cleanup_expired_idempotency_keys-Moves :
    (s : Session)
    → IsClean s
    → Moves SameAccounts s.store (pos 0) (cleanup_expired_idempotency_keys s)
unfolding cleanup_expired_idempotency_keys
cleanup_expired_idempotency_keys-Moves s clean = rw clean.flushed (
    commit-Moves _ _ SameAccounts (pos 0)
      (λ db' e. still_current s db' clean (keys_deleted s.now s.now s.store db' e)))

pub cleanup_old_webhook_events-Moves :
    (s : Session) → IsClean s → Moves SameAccounts s.store (pos 0) (cleanup_old_webhook_events s)
unfolding cleanup_old_webhook_events
cleanup_old_webhook_events-Moves s clean = rw clean.flushed (
    commit-Moves _ _ SameAccounts (pos 0)
      (λ db' e. still_current s db' clean (events_deleted s.now _ s.store db' e)))

-- What every round of the expiry keeps, the job keeps, wherever it stops.
module _ (G : Frame) (closed : Closed G)
    (round : (k : ℕ) (s : Session) → IsClean s → Keeps G s.store (expire_one k s)) where
  expire_each-Keeps :
      (ks : List ℕ) (n : ℕ) (s : Session) → IsClean s → Keeps G s.store (expire_each ks n s)
  unfolding expire_each
  expire_each-Keeps [] n s clean = closed.idle s.store
  expire_each-Keeps (k ∷ ks) n s clean =
      bind-Keeps G closed SameRecords (expire_one k) (λ i. expire_each ks (n + i)) s
        (expire_one-Moves k s clean) (round k s clean)
        (λ i s' clean'. expire_each-Keeps ks (n + i) s' clean')

  pub run_cleanup_job-Keeps : (now : ℕ) (db : Database) → G db (run_cleanup_job now db)
  unfolding run_cleanup_job expire_stale_pending_transactions
  run_cleanup_job-Keeps now db =
      kept-Keeps G closed cleanup_expired_idempotency_keys
        (λ _. cleanup_old_webhook_events >>= λ _. expire_stale_pending_transactions)
        (open_session now db)
        (cleanup_expired_idempotency_keys-Moves (open_session now db) (open_session-IsClean now db))
        (λ _ s clean.
          kept-Keeps G closed cleanup_old_webhook_events (λ _. expire_stale_pending_transactions) s
            (cleanup_old_webhook_events-Moves s clean)
            (λ _ s' clean'. expire_each-Keeps _ 0 s' clean'))

-- The whole cleanup job keeps the funds of the bank, and no balance is negative after it if none was
-- before, also when a step raises and ends it.
pub run_cleanup_job-IsSafe :
    (now : ℕ) (db : Database)
    → (funds (run_cleanup_job now db) ≡ funds db) × (IsSound db → IsSound (run_cleanup_job now db))
run_cleanup_job-IsSafe =
    run_cleanup_job-Keeps Safe Safe-Closed
      (λ k s clean. Moves-IsSafe SameRecords (expire_one k) s (expire_one-Moves k s clean))
