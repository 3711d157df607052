-- ===== src/Cleanup/Complete.antt =====
-- The expiry goes through all the stale payments.
use banking_payments_api.Prelude.{
  ℕ, ◌+◌, ◌-◌, ◌*◌, ◌≡◌, refl, ◌∙◌, Bool, true, ◌||◌, not, some, List, [], ◌∷◌, arith, inl, inr,
  Bool-cases, Option-cases,
}
use banking_payments_api.Prelude.Int.{ℤ, pos, ◌+ℤ◌, +ℤ_zero, add_nonneg}
use banking_payments_api.Prelude.Lists.{select, All}
use banking_payments_api.Store.Tables.{find, update, All-find, All-update}
use banking_payments_api.Store.Models.{
  Database, Account, Transaction, account_id, transaction_id, is_pending, failed,
}
use banking_payments_api.Store.Decimal.{fits_numeric}
use banking_payments_api.Store.Errors.{ok}
use banking_payments_api.Store.Schema.{exists, fits_description, with_status, with_balance}
use banking_payments_api.Store.Session.{Session, >>=-of_ok}
use banking_payments_api.Store.Session.Loading.{IsClean}
use banking_payments_api.Ledger.{funds}
use banking_payments_api.Ledger.Bounds.{balance_and_pending-le-funds, fits_of_le}
use banking_payments_api.Ledger.Moves.{Moved, SameRecords}
use banking_payments_api.Ledger.Sound.{IsSolvent, IsPositive, IsSound}
use banking_payments_api.Webhooks.Settled.{exists-update}
use banking_payments_api.Cleanup.{
  is_stale, expired_description, expire_one, expire_each, expire_stale_pending_transactions,
}
use banking_payments_api.Cleanup.Expiry.{expire_one-Moves}
use banking_payments_api.Cleanup.Kept.{expire_one_refunds}
use banking_payments_api.Cleanup.Stale.{
  DistinctIds, DistinctIds-update, AreCovered, update_covered, skip_covered, stale_ids,
  stale_covered, covered_none,
}

-- the note fits behind the description of a transaction that is still pending
abbrev pub has_room : Transaction → Bool
has_room t =
    not (is_pending t.status) || fits_description (some (expired_description t.description))

abbrev pub has_sender : List Account → Transaction → Bool
has_sender accounts t = exists t.account_id accounts

-- What the expiry relies on: the invariant, funds within Numeric(12, 2), the primary key and the
-- foreign key of the transactions, and room for the note.
pub record IsReady (db : Database) : Type 0 where
  pub sound : IsSound db
  pub bounded : fits_numeric (funds db) ≡ true
  pub distinct : DistinctIds db.transactions
  pub senders : All (λ t. has_sender db.accounts t ≡ true) db.transactions
  pub room : All (λ t. has_room t ≡ true) db.transactions

sender_found :
    (k : ℕ) (rows : List Account) → exists k rows ≡ true → (a : Account) × (find k rows ≡ some a)
sender_found k rows h = elim (Option-cases (find k rows)) [
  | inl gone ↦ absurd (ground arith)
  | inr found ↦ found
]

senders_kept :
    (k : ℕ) (b : ℤ) (now : ℕ) (accounts : List Account) (row : Account) (ts : List Transaction)
    → find k accounts ≡ some row
    → All (λ t. has_sender accounts t ≡ true) ts
    → All (λ t. has_sender (update k (with_balance now b) accounts) t ≡ true) ts
senders_kept k b now accounts row [] held h = tt
senders_kept k b now accounts row (t ∷ ts) held h =
    let (a, found) = sender_found t.account_id accounts h.0 in
    (
      exists-update k t.account_id b now accounts row a held found,
      senders_kept k b now accounts row ts held h.1,
    )

pending_covered :
    (cutoff k : ℕ) (ks : List ℕ) (s : Session) (t : Transaction)
    → IsClean s
    → IsReady s.store
    → find k s.store.transactions ≡ some t
    → is_pending t.status ≡ true
    → AreCovered cutoff (k ∷ ks) s.store.transactions
    → (n : ℕ) × (s' : Session) × (expire_one k s ≡ (ok n, s'))
      × IsClean s'
      × IsReady s'.store
      × AreCovered cutoff ks s'.store.transactions
pending_covered cutoff k ks s t clean ready found waiting h =
    let ts = s.store.transactions in
    let rows = s.store.accounts in
    let (a, held) =
      sender_found t.account_id rows
        (All-find (λ u. has_sender rows u ≡ true) k t ts ready.senders found) in
    let roomy : has_room t ≡ true = All-find (λ u. has_room u ≡ true) k t ts ready.room found in
    let room : fits_description (some (expired_description t.description)) ≡ true =
      rw waiting at roomy in
    let nonneg =
      add_nonneg a.balance t.amount
        (All-find IsSolvent t.account_id a rows ready.sound.solvent held)
        (All-find IsPositive k t ts ready.sound.positive found) in
    let fits =
      fits_of_le (a.balance +ℤ t.amount) (funds s.store) nonneg
        (balance_and_pending-le-funds s.store ready.sound t.account_id k a t held found waiting)
        ready.bounded in
    let (loaded, e) = expire_one_refunds k s t a clean found waiting held fits room in
    let rows' = update t.account_id (with_balance s.now (a.balance +ℤ t.amount)) rows in
    let settle = with_status s.now failed (some (expired_description t.description)) in
    let s' : Session = record s {
      store = record s.store { accounts = rows'; transactions = update k settle ts };
      identity_map = loaded;
      unflushed = [];
    } in
    let moved : Moved SameRecords s.store (pos 0) s' = rw e at (expire_one-Moves k s clean) in
    let kept =
      senders_kept t.account_id (a.balance +ℤ t.amount) s.now rows a ts held ready.senders in
    (
      1,
      s',
      e,
      moved.clean,
      record {
        sound = moved.sound ready.sound;
        bounded = rw (moved.funds ∙ +ℤ_zero (funds s.store)) ready.bounded;
        distinct = DistinctIds-update k settle ts (λ u. refl) ready.distinct;
        senders =
            All-update (λ u. has_sender rows' u ≡ true) k settle ts kept
              (λ u there. All-find (λ v. has_sender rows' v ≡ true) k u ts kept there);
        room = All-update (λ u. has_room u ≡ true) k settle ts ready.room (λ u there. refl);
      },
      update_covered cutoff k ks settle ts (λ u. refl) ready.distinct h,
    )

-- One round succeeds and covers its transaction; what the expiry relies on still holds.
round_covers :
    (cutoff k : ℕ) (ks : List ℕ) (s : Session)
    → IsClean s
    → IsReady s.store
    → AreCovered cutoff (k ∷ ks) s.store.transactions
    → (n : ℕ) × (s' : Session) × (expire_one k s ≡ (ok n, s'))
      × IsClean s'
      × IsReady s'.store
      × AreCovered cutoff ks s'.store.transactions
round_covers cutoff k ks s clean ready h = elim (Option-cases (find k s.store.transactions)) [
  | inl gone ↦ (
    0,
    s,
    unfold expire_one in ground arith,
    clean,
    ready,
    skip_covered cutoff k ks s.store.transactions ready.distinct (λ t found. cc) h,
  )
  | inr (t, found) ↦ elim (Bool-cases (is_pending t.status)) [
    | inr settled ↦ (
      0,
      s,
      unfold expire_one in ground arith,
      clean,
      ready,
      skip_covered cutoff k ks s.store.transactions ready.distinct (λ u there. ground arith) h,
    )
    | inl waiting ↦ pending_covered cutoff k ks s t clean ready found waiting h
  ]
]

-- the loop succeeds and covers all its ids
rounds_cover :
    (cutoff : ℕ) (ks : List ℕ) (n : ℕ) (s : Session)
    → IsClean s
    → IsReady s.store
    → AreCovered cutoff ks s.store.transactions
    → (m : ℕ) × (s' : Session) × (expire_each ks n s ≡ (ok m, s'))
      × IsClean s'
      × IsReady s'.store
      × AreCovered cutoff [] s'.store.transactions
unfolding expire_each
rounds_cover cutoff [] n s clean ready h = (n, s, refl, clean, ready, h)
rounds_cover cutoff (k ∷ ks) n s clean ready h =
    let (i, s₁, e, clean₁, ready₁, h₁) = round_covers cutoff k ks s clean ready h in
    let (m, s', e', c', r', h') = rounds_cover cutoff ks (n + i) s₁ clean₁ ready₁ h₁ in
    (m, s', >>=-of_ok (expire_one k) (λ i. expire_each ks (n + i)) e ∙ e', c', r', h')

-- The expiry succeeds in any clean session on a sound database whose funds fit Numeric(12, 2), whose
-- transactions have distinct ids and existing accounts, and whose pending transactions have room for
-- the note in their descriptions. It leaves no stale payment: none is pending that was created more
-- than 24 hours ago. The session is clean again, and the same can be said of the database.
pub expire_stale_pending_transactions_completes :
    (s : Session)
    → IsClean s
    → IsReady s.store
    → (m : ℕ) × (s' : Session) × (expire_stale_pending_transactions s ≡ (ok m, s'))
      × (select (is_stale (s.now - 24 * 3600)) s'.store.transactions ≡ [])
      × IsClean s'
      × IsReady s'.store
unfolding expire_stale_pending_transactions
expire_stale_pending_transactions_completes s clean ready =
    let cutoff = s.now - 24 * 3600 in
    let (m, s', e, clean', ready', h) =
      rounds_cover cutoff (stale_ids cutoff s.store.transactions) 0 s clean ready
        (stale_covered cutoff s.store.transactions) in
    (m, s', e, covered_none cutoff s'.store.transactions h, clean', ready')
