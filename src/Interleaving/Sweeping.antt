-- ===== src/Interleaving/Sweeping.antt =====
-- The cleanup job and what has become of the transactions, while other requests run.
use mathlib.Core.Path.{subst}
use banking_payments_api.Prelude.{
  ℕ, ◌+◌, ◌*◌, ◌-◌, ◌≡◌, refl, sym, Option, some, List, [], ◌∷◌, map, arith, true, inl, inr,
  Option-cases, Bool-cases,
}
use banking_payments_api.Prelude.Lists.{select}
use banking_payments_api.Store.Tables.{find, find-id}
use banking_payments_api.Store.Models.{
  Database, Transaction, TransactionStatus, is_pending, transaction_id, account_id,
}
use banking_payments_api.Store.Errors.{Outcome, ok, raise, no_result_found, Outcome-cases}
use banking_payments_api.Store.Schema.{
  set_balance, set_status, delete_keys_before, delete_events_before, flush,
}
use banking_payments_api.Store.Session.{Session, commit, pure, ◌>>◌, open_session}
use banking_payments_api.Store.Session.Loading.{select_missing, select-Loaded}
use banking_payments_api.Ledger.Flow.{flush-cons, flush-one}
use banking_payments_api.Ledger.Moves.{commit_flushed, commit_failed}
use banking_payments_api.Ledger.Settlement.{find-set_balance}
use banking_payments_api.Prelude.Int.{ℤ, ◌+ℤ◌}
use banking_payments_api.Cleanup.{
  is_stale, pending_transaction_timeout_hours, expire_one, cleanup_expired_idempotency_keys,
  cleanup_old_webhook_events, webhook_event_retention_days, expired_description,
}
use banking_payments_api.Cleanup.Expiry.{expire_staged}
use banking_payments_api.Interleaving.{Program, next, facing}
use banking_payments_api.Interleaving.Programs.{cleanup, expiring, stale_ids}
use banking_payments_api.Interleaving.Rule.{After, Keeping}
use banking_payments_api.Interleaving.Final.{Final, Final-trans, status-Final}
use banking_payments_api.Interleaving.Changes.{entries, flush-Watched, apply-Final}

-- the payments that the job finds stale
abbrev stale : Session → Database → List ℕ
stale s db =
    map (λ (t : Transaction). t.id)
      (select (is_stale (s.now - pending_transaction_timeout_hours * 3600)) db.transactions)

-- After a commit nothing is left to write.
committed-After :
    {A : Type 0} (I : Database → Type 0) (a : A) (s : Session)
    → ((db' : Database) → flush s.now s.unflushed s.store ≡ ok db' → I db')
    → I s.store
    → After I (λ _ s'. s'.unflushed ≡ []) ((commit >> pure a) s)
committed-After I a s flushes h = elim (Outcome-cases (flush s.now s.unflushed s.store)) [
  | inl (db', e) ↦ rw (commit_flushed a s e) (flushes db' e, refl)
  | inr (x, e) ↦ rw (commit_failed a s e) h
]

module _ (base : Database) where
  keys-After :
      (s : Session)
      → s.unflushed ≡ []
      → Final base s.store
      → After (Final base) (λ _ s'. s'.unflushed ≡ []) (cleanup_expired_idempotency_keys s)
  unfolding cleanup_expired_idempotency_keys
  keys-After s flushed h = rw flushed (
      committed-After (Final base) _ _
        (λ db' e.
          flush-Watched s.now (entries base) (delete_keys_before s.now ∷ []) s.store db' (tt, tt) e
            h)
        h)

  events-After :
      (s : Session)
      → s.unflushed ≡ []
      → Final base s.store
      → After (Final base) (λ _ s'. s'.unflushed ≡ []) (cleanup_old_webhook_events s)
  unfolding cleanup_old_webhook_events
  events-After s flushed h = rw flushed (
      committed-After (Final base) _ _
        (λ db' e.
          flush-Watched s.now (entries base)
            (delete_events_before (s.now - webhook_event_retention_days * 86400) ∷ []) s.store db'
            (tt, tt) e h)
        h)

  expired-Final :
      (now a k : ℕ) (b : ℤ) (st : TransactionStatus) (d : Option (List ℕ)) (t : Transaction)
      (db db' : Database)
      → find k db.transactions ≡ some t
      → is_pending t.status ≡ true
      → flush now (set_balance a b ∷ set_status k st d ∷ []) db ≡ ok db'
      → Final db db'
  expired-Final now a k b st d t db db' found waiting e =
      let (mid, first, rest) = flush-cons now (set_balance a b) (set_status k st d ∷ []) db e in
      Final-trans db mid db' (apply-Final now base (set_balance a b) db mid tt first) (
        status-Final now k st d t mid db' (find-set_balance now a b k t db mid first found) waiting
          (flush-one now (set_status k st d) mid rest))

  expire_one-After :
      (k : ℕ) (s : Session)
      → s.unflushed ≡ []
      → Final base s.store
      → After (Final base) (λ _ s'. s'.unflushed ≡ []) (expire_one k s)
  expire_one-After k s flushed h = elim (Option-cases (find k s.store.transactions)) [
    | inl gone ↦
        let e : expire_one k s ≡ (ok 0, s) = unfold expire_one in ground arith in rw e (h, flushed)
    | inr (t, found) ↦ elim (Bool-cases (is_pending t.status)) [
      | inr settled ↦
          let e : expire_one k s ≡ (ok 0, s) = unfold expire_one in ground arith in
          rw e (h, flushed)
      | inl waiting ↦ elim (Option-cases (find t.account_id s.store.accounts)) [
        | inl absent ↦
            let e : expire_one k s ≡ (raise no_result_found, s) =
              unfold expire_one in ground (arith, select_missing t.account_id s absent) in
            rw e h
        | inr (row, held) ↦
            let (a, im, l) = select-Loaded t.account_id s row held in
            rw (expire_staged k s t found waiting l flushed) (
              committed-After (Final base) 1 _
                (λ db' e. Final-trans base s.store db' h (
                  expired-Final s.now a.id t.id (a.balance +ℤ t.amount) TransactionStatus.failed
                    (some (expired_description t.description)) t s.store db'
                    (subst (λ n. find n s.store.transactions ≡ some t)
                      (sym (find-id k t s.store.transactions found)) found)
                    waiting e))
                h)
      ]
    ]
  ]

  -- the segment runs, and the rest of the program begins with nothing to write
  going_on :
      {A B : Type 0} (f : B → Program A) (r : Outcome B × Session)
      → ((b : B) (s : Session) → s.unflushed ≡ [] → Keeping (Final base) (f b) s)
      → After (Final base) (λ _ s'. s'.unflushed ≡ []) r
      → After (Final base) (λ b. Keeping (Final base) (f b)) r
  going_on f (ok b, s) rest (h, flushed) = (h, rest b s flushed)
  going_on f (raise e, s) rest h = h

  expiring-Keeping :
      (ks : List ℕ) (count : ℕ) (s : Session)
      → s.unflushed ≡ []
      → Keeping (Final base) (expiring ks count) s
  unfolding expiring
  expiring-Keeping [] count s flushed = λ db h. h
  expiring-Keeping (k ∷ ks) count s flushed = λ db h.
      going_on (λ n. expiring ks (count + n)) (expire_one k (facing s db))
        (λ n s' flushed'. expiring-Keeping ks (count + n) s' flushed')
        (expire_one-After k (facing s db) flushed h)

  pub cleanup-Keeping :
      (now : ℕ) (first : Database) → Keeping (Final base) cleanup (open_session now first)
  unfolding cleanup stale_ids
  cleanup-Keeping now first = λ db h.
      let expires : ℕ → Program ℕ = λ _. next stale_ids (λ ks. expiring ks 0) in
      let sweeps : ℕ → Program ℕ = λ _. next cleanup_old_webhook_events expires in
      going_on sweeps (cleanup_expired_idempotency_keys (facing (open_session now first) db))
        (λ _ s flushed. λ db' h'.
          going_on expires (cleanup_old_webhook_events (facing s db'))
            (λ _ s' flushed'.
              λ db'' h''. (h'', expiring-Keeping (stale s' db'') 0 (facing s' db'') flushed'))
            (events-After (facing s db') flushed h'))
        (keys-After (facing (open_session now first) db) refl h)
