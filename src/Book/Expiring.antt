-- ===== src/Book/Expiring.antt =====
-- Which payments the cleanup job expires, and what it spares.
use banking_payments_api.Prelude.{
  ℕ, ◌+◌, ◌*◌, ◌-◌, ◌≡◌, ◌≢◌, refl, sym, ap, ◌∙◌, Bool, true, false, ◌&&◌, some, List, [], ◌∷◌, map,
  arith, ltb, ◌==◌, Bool-cases, Option-cases, inl, inr,
}
use banking_payments_api.Prelude.Lists.{All, select}
use banking_payments_api.Store.Tables.{find}
use banking_payments_api.Store.Models.{
  Database, Transaction, IdempotencyKey, transaction_id, is_pending, is_payment,
}
use banking_payments_api.Store.Schema.{any_row, detach, is_live, is_retained, apply, flush}
use banking_payments_api.Store.Session.{Session, commit, open_session}
use banking_payments_api.Store.Session.Loading.{IsClean, open_session-IsClean}
use banking_payments_api.Ledger.Moves.{SameRecords}
use banking_payments_api.Ledger.Composing.{Keeps, bind-Keeps}
use banking_payments_api.Book.{Book, Entry, Command, set, write, step, run, expire}
use banking_payments_api.Book.View.{view, view-entry, entry_of, row_of}
use banking_payments_api.Book.Settling.{expire_one-Implements}
use banking_payments_api.Book.Following.{Follows, Follows-Closed, Implements-Follows}
use banking_payments_api.Cleanup.{
  is_stale, expire_one, expire_each, expire_stale_pending_transactions,
  cleanup_expired_idempotency_keys, cleanup_old_webhook_events, run_cleanup_job,
}
use banking_payments_api.Cleanup.Expiry.{expire_one-Moves, entry_in-detach}
use banking_payments_api.Cleanup.Stale.{DistinctIds}

-- a payment that is pending and was made more than 24 hours ago
abbrev pub is_overdue : ℕ → Transaction → Bool
is_overdue now t = is_pending t.status && is_payment t.type && ltb (t.created_at + 24 * 3600) now

-- the command to expire such a payment of these rows
abbrev pub expires_overdue : ℕ → List Transaction → Command → Bool
expires_overdue now ts (expire k) = any_row (λ t. t.id == k && is_overdue now t) ts
expires_overdue now ts _ = false

overdue_of_stale :
    (now : ℕ) (t : Transaction) → is_stale (now - 24 * 3600) t ≡ true → is_overdue now t ≡ true
overdue_of_stale now t stale = ground arith

module _ (p : Command → Bool) where
  expire_each-Follows :
      (ks : List ℕ) (n : ℕ) (s : Session)
      → IsClean s
      → All (λ k. p (expire k) ≡ true) ks
      → Keeps (Follows p) s.store (expire_each ks n s)
  unfolding expire_each
  expire_each-Follows [] n s clean asked = (Follows-Closed p).idle s.store
  expire_each-Follows (k ∷ ks) n s clean asked =
      bind-Keeps (Follows p) (Follows-Closed p) SameRecords (expire_one k)
        (λ i. expire_each ks (n + i)) s (expire_one-Moves k s clean)
        (Implements-Follows p (expire k) (expire_one k) s asked.0 (expire_one-Implements k s clean))
        (λ i s' clean'. expire_each-Follows ks (n + i) s' clean' asked.1)

abbrev ids_of : ℕ → List Transaction → List ℕ
ids_of now ts = map (λ (t : Transaction). t.id) (select (is_stale (now - 24 * 3600)) ts)

asked_more :
    (now : ℕ) (t : Transaction) (ts : List Transaction) (ks : List ℕ)
    → All (λ k. expires_overdue now ts (expire k) ≡ true) ks
    → All (λ k. expires_overdue now (t ∷ ts) (expire k) ≡ true) ks
asked_more now t ts [] h = tt
asked_more now t ts (k ∷ ks) h = (ground (arith, h.0), asked_more now t ts ks h.1)

-- the ids of the stale rows, whose keys may be gone
stale_asked :
    (now : ℕ) (kept : List IdempotencyKey) (ts : List Transaction)
    → All (λ k. expires_overdue now ts (expire k) ≡ true) (ids_of now (map (detach kept) ts))
stale_asked now kept [] = tt
stale_asked now kept (t ∷ ts) =
    let later = asked_more now t ts (ids_of now (map (detach kept) ts)) (stale_asked now kept ts) in
    elim (Bool-cases (is_stale (now - 24 * 3600) (detach kept t))) [
      | inl stale ↦
          let id : (detach kept t).id ≡ t.id = ground arith in
          let overdue : is_overdue now t ≡ true = overdue_of_stale now t (ground arith) in
          let mine : expires_overdue now (t ∷ ts) (expire (detach kept t).id) ≡ true =
            rw id (ground arith) in
          rw stale (mine, later)
      | inr fresh ↦ rw fresh later
    ]

view-detach :
    (kept : List IdempotencyKey) (db' db : Database)
    → db'.accounts ≡ db.accounts
    → db'.transactions ≡ map (detach kept) db.transactions
    → view db' ≡ view db
unfolding view
view-detach kept db' db accounts transactions =
    rw (accounts, transactions, entry_in-detach kept db.transactions) refl

-- The cleanup job changes the book by a run of `expire` commands, wherever it stops, and each of them is for a payment that was pending before the job and made more than 24 hours ago.
pub run_cleanup_job-Follows :
    (now : ℕ) (db : Database)
    → Follows (expires_overdue now db.transactions) db (run_cleanup_job now db)
unfolding run_cleanup_job cleanup_expired_idempotency_keys cleanup_old_webhook_events commit flush
    apply expire_stale_pending_transactions view
run_cleanup_job-Follows now db =
    let kept = select (is_live now) db.idempotency_keys in
    let cleaned : Database = record db {
      idempotency_keys = kept;
      transactions = map (detach kept) db.transactions;
      webhook_events = select (is_retained (now - 7 * 86400)) db.webhook_events;
    } in
    let (cs, h, e) =
      expire_each-Follows (expires_overdue now db.transactions) _ 0 (open_session now cleaned)
        (open_session-IsClean now cleaned) (stale_asked now kept db.transactions) in
    (cs, h, ap (run cs) (sym (view-detach kept cleaned db refl refl)) ∙ e)

step-spares :
    (j k : ℕ) (book book' : Book)
    → (j == k) ≡ false
    → step (expire j) book ≡ some book'
    → book'.entry k ≡ book.entry k
unfolding step write set
step-spares j k book book' other e = ground arith

run-spares :
    (now k : ℕ) (ts : List Transaction) (cs : List Command) (book book' : Book)
    → any_row (λ (t : Transaction). t.id == k && is_overdue now t) ts ≡ false
    → All (λ c. expires_overdue now ts c ≡ true) cs
    → run cs book ≡ some book'
    → book'.entry k ≡ book.entry k
unfolding run
run-spares now k ts [] book book' spared h e =
    let same : book ≡ book' = cc in ap (λ (b : Book). b.entry k) (sym same)
run-spares now k ts (expire j ∷ cs) book book' spared h e = elim (Bool-cases (j == k)) [
  | inl same ↦ let p : j ≡ k = ground arith in let q = rw p at h.0 in absurd (ground arith)
  | inr other ↦ elim (Option-cases (step (expire j) book)) [
    | inl refused ↦ absurd (ground arith)
    | inr (mid, done) ↦
        run-spares now k ts cs mid book' spared h.1 (rw done at e)
        ∙ step-spares j k book mid other done
  ]
]
run-spares now k ts (Command.open_account _ ∷ cs) book book' spared h e = absurd (ground arith)
run-spares now k ts (Command.deposit _ _ _ ∷ cs) book book' spared h e = absurd (ground arith)
run-spares now k ts (Command.pay _ _ _ _ ∷ cs) book book' spared h e = absurd (ground arith)
run-spares now k ts (Command.confirm _ _ ∷ cs) book book' spared h e = absurd (ground arith)
run-spares now k ts (Command.cancel _ ∷ cs) book book' spared h e = absurd (ground arith)

absent-any_row :
    (now k n : ℕ) (ts : List Transaction)
    → n ≡ k
    → All (λ (u : Transaction). u.id ≢ n) ts
    → any_row (λ (u : Transaction). u.id == k && is_overdue now u) ts ≡ false
absent-any_row now k n [] p apart = refl
absent-any_row now k n (u ∷ us) p apart = elim (Bool-cases (u.id == k)) [
  | inl same ↦ let q : u.id ≡ k = ground arith in absurd (apart.0 (q ∙ sym p))
  | inr other ↦ rw other (absent-any_row now k n us p apart.1)
]

-- no other row has the id of a row that is not overdue
spared_alone :
    (now k : ℕ) (t : Transaction) (ts : List Transaction)
    → DistinctIds ts
    → find k ts ≡ some t
    → is_overdue now t ≡ false
    → any_row (λ (u : Transaction). u.id == k && is_overdue now u) ts ≡ false
spared_alone now k t [] d found fresh = refl
spared_alone now k t (u ∷ us) d found fresh = elim (Bool-cases (u.id == k)) [
  | inl same ↦
      let p : u.id ≡ k = ground arith in
      let q : u ≡ t = ground arith in
      let alone = absent-any_row now k u.id us p d.0 in rw (same, q, fresh) alone
  | inr other ↦ rw other (spared_alone now k t us d.1 (ground arith) fresh)
]

-- A transaction that is not pending, is no payment, or was made at most 24 hours ago keeps its
-- account, its other side, its amount and its status in the cleanup job, wherever the job stops, if
-- the ids of the transactions are distinct.
pub run_cleanup_job-spares :
    (now k : ℕ) (db : Database) (t : Transaction)
    → DistinctIds db.transactions
    → find k db.transactions ≡ some t
    → is_overdue now t ≡ false
    → (t' : Transaction) × (find k (run_cleanup_job now db).transactions ≡ some t')
      × (t'.account_id ≡ t.account_id)
      × (t'.related_account_id ≡ t.related_account_id)
      × (t'.amount ≡ t.amount)
      × (t'.status ≡ t.status)
run_cleanup_job-spares now k db t distinct found fresh =
    let (cs, h, e) = run_cleanup_job-Follows now db in
    let kept =
      run-spares now k db.transactions cs (view db) _
        (spared_alone now k t db.transactions distinct found fresh) h e in
    let (t', found', same) =
      row_of (run_cleanup_job now db).transactions k (entry_of t)
        (unfold view in (kept ∙ view-entry db k t found)) in
    (
      t',
      found',
      ap (λ (x : Entry). x.account) same,
      ap (λ (x : Entry). x.related) same,
      ap (λ (x : Entry). x.amount) same,
      ap (λ (x : Entry). x.status) same,
    )
