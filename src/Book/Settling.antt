-- ===== src/Book/Settling.antt =====
-- The confirmations and the expiry do to the book what the commands say.
use mathlib.Core.Path.{subst}
use banking_payments_api.Prelude.{
  ℕ, ◌≡◌, sym, ◌∙◌, Option, none, some, true, List, [], ◌∷◌, arith, inl, inr, Option-cases,
  Bool-cases,
}
use banking_payments_api.Prelude.Int.{ℤ, ◌+ℤ◌}
use banking_payments_api.Store.Tables.{find, find-id}
use banking_payments_api.Store.Models.{
  Database, Account, Transaction, account_id, transaction_id, is_pending, failed, completed,
}
use banking_payments_api.Store.Decimal.{Decimal}
use banking_payments_api.Store.Errors.{ok, Outcome-cases}
use banking_payments_api.Store.Schema.{insert_transaction, set_balance, set_status, flush}
use banking_payments_api.Store.Session.{Session}
use banking_payments_api.Store.Session.Loading.{IsClean, Loaded, select_missing, select-Loaded}
use banking_payments_api.Ledger.Flow.{flush-cons, flush-one, find-insert_transaction}
use banking_payments_api.Ledger.Settlement.{find-set_balance}
use banking_payments_api.Book.{
  Book, Entry, confirm, cancel, expire, set, write, settled, step, refund,
}
use banking_payments_api.Book.View.{
  view, entry_of, view-balance, view-entry, view-set_status, view-insert_transaction,
}
use banking_payments_api.Book.Services.{Implements, commit-Implements, view_balanced}
use banking_payments_api.Webhooks.{
  Refusals, checked, load_pending, succeeded_refusals, failed_refusals, transfer_row,
  process_payment_succeeded, process_payment_failed,
}
use banking_payments_api.Webhooks.Settling.{
  checked-ok, checked-Passes, failed_staged, succeeded_staged,
}
use banking_payments_api.Cleanup.{expired_description, expire_one}
use banking_payments_api.Cleanup.Expiry.{expire_staged}

refunded :
    (k : ℕ) (book : Book) (e : Entry) (b : ℤ)
    → book.balance e.account ≡ some b
    → refund k e book ≡ some (write k (settled failed e) (set e.account (b +ℤ e.amount) book))
refunded k book e b held = ground arith

module _ (k : ℕ) (book : Book) (e : Entry) (there : book.entry k ≡ some e)
    (waiting : is_pending e.status ≡ true) where
  cancelled : step (cancel k) book ≡ refund k e book
  unfolding step
  cancelled = ground arith

  expired : step (expire k) book ≡ refund k e book
  unfolding step
  expired = ground arith

  confirmed :
      (b : ℤ) (n r : ℕ) (mid : Book)
      → e.related ≡ some r
      → book.balance r ≡ some b
      → mid ≡ set r (b +ℤ e.amount) book
      → mid.entry n ≡ none
      → step (confirm k n) book
        ≡ some (
            write k (settled completed e) (
              write n
                (record {
                  account = r;
                  related = some e.account;
                  amount = e.amount;
                  status = completed;
                })
                mid))
  unfolding step set
  confirmed b n r mid related held e' free = ground arith

-- what the flush of a refund does
module _ (s : Session) (t : Transaction) (row a : Account) (im : List Account) (clean : IsClean s)
    (l : Loaded t.account_id s row a im) (found : find t.id s.store.transactions ≡ some t) where
  view_refunded :
      (d : Option (List ℕ)) (db' : Database)
      → flush s.now
          (set_balance a.id (a.balance +ℤ t.amount) ∷ set_status t.id failed d ∷ [])
          s.store
        ≡ ok db'
      → refund t.id (entry_of t) (view s.store) ≡ some (view db')
  view_refunded d db' flushed =
      let (mid, first, rest) = flush-cons s.now _ _ s.store flushed in
      let there = find-set_balance s.now a.id _ t.id t s.store mid first found in
      let written = view-set_status s.now mid t.id failed d t there (flush-one s.now _ mid rest) in
      let balanced = view_balanced s t.account_id row a im clean l (λ b. b +ℤ t.amount) mid first in
      rw (written, balanced)
        (refunded t.id (view s.store) (entry_of t) row.balance
          (view-balance s.store t.account_id row l.found))

-- what the flush of a confirmed payment does
module _ (s : Session) (t : Transaction) (row a : Account) (im : List Account) (clean : IsClean s)
    (q : ℕ) (l : Loaded q s row a im) (n : ℕ) (found : find t.id s.store.transactions ≡ some t)
    (waiting : is_pending t.status ≡ true) (related : t.related_account_id ≡ some q) where
  view_confirmed :
      (db' : Database)
      → flush s.now
          (set_balance a.id (a.balance +ℤ t.amount)
            ∷ insert_transaction (transfer_row n a.id t.account_id t.amount t.description s.now)
            ∷ set_status t.id completed t.description
            ∷ [])
          s.store
        ≡ ok db'
      → step (confirm t.id n) (view s.store) ≡ some (view db')
  view_confirmed db' flushed =
      let transfer = transfer_row n a.id t.account_id t.amount t.description s.now in
      let (mid, first, others) = flush-cons s.now _ _ s.store flushed in
      let (next, second, rest) = flush-cons s.now _ _ mid others in
      let there = find-set_balance s.now a.id _ t.id t s.store mid first found in
      let still = find-insert_transaction s.now mid t.id transfer t second there in
      let (entered, free) = view-insert_transaction s.now mid transfer second in
      let written =
        view-set_status s.now next t.id completed t.description t still
          (flush-one s.now _ next rest) in
      let balanced = view_balanced s q row a im clean l (λ b. b +ℤ t.amount) mid first in
      let done =
        confirmed t.id (view s.store) (entry_of t) (view-entry s.store t.id t found) waiting
          row.balance n q (view mid) related (view-balance s.store q row l.found) balanced free in
      let paid_to : ℕ → Entry = λ j. record {
        account = j;
        related = some t.account_id;
        amount = t.amount;
        status = completed;
      } in
      rw (written, entered)
        (subst
          (λ j.
            step (confirm t.id n) (view s.store)
            ≡ some (write t.id (settled completed (entry_of t)) (write n (paid_to j) (view mid))))
          (sym l.id) done)

checked-id :
    (refuse : Refusals) (k : ℕ) (amount : Decimal) (s : Session) (t : Transaction) (c : ℤ)
    → checked refuse k amount (find k s.store.transactions) ≡ ok (t, c)
    → t.id ≡ k
checked-id refuse k amount s t c passed =
    let (found, _, _, _) = checked-ok refuse k amount (find k s.store.transactions) t c passed in
    find-id k t s.store.transactions found

-- In a clean session a failed confirmation that returns has done to the book what the command
-- `cancel` says: the transaction was pending and has failed, and its amount is back on its account.
-- One that raises has left the book as it was.
pub process_payment_failed-Implements :
    (k : ℕ) (amount : Decimal) (s : Session)
    → IsClean s
    → Implements (cancel k) s.store (process_payment_failed k amount s)
process_payment_failed-Implements k amount s clean =
    elim (Outcome-cases (checked failed_refusals k amount (find k s.store.transactions))) [
      | inl ((t, c), passed) ↦
          let p = checked-Passes failed_refusals k amount s t c passed in
          elim (Option-cases (find t.account_id s.store.accounts)) [
            | inl absent ↦
                unfold process_payment_failed load_pending in
                ground (arith, select_missing t.account_id s absent)
            | inr (row, found) ↦
                let (a, im, l) = select-Loaded t.account_id s row found in
                rw (failed_staged k amount s t c passed l clean.flushed) (
                  commit-Implements (cancel k) _ _ (λ db' flushed.
                    rw (← checked-id failed_refusals k amount s t c passed) (
                      cancelled t.id (view s.store) (entry_of t) (view-entry s.store t.id t p.found)
                        p.pending
                      ∙ view_refunded s t row a im clean l p.found t.description db'
                          (rw (← p.same) at flushed))))
          ]
      | inr (e, refused) ↦ unfold process_payment_failed load_pending in ground arith
    ]

-- In a clean session a round of the expiry that returns has done to the book what the command
-- `expire` says: a pending transaction has failed and its amount is back on its account, and nothing
-- else changes the book. A round that raises has left the book as it was.
pub expire_one-Implements :
    (k : ℕ) (s : Session) → IsClean s → Implements (expire k) s.store (expire_one k s)
expire_one-Implements k s clean = elim (Option-cases (find k s.store.transactions)) [
  | inl gone ↦
      let e : expire_one k s ≡ (ok 0, s) = unfold expire_one in ground arith in
      rw e (unfold step view in ground arith)
  | inr (t, found) ↦ elim (Bool-cases (is_pending t.status)) [
    | inr settles ↦
        let e : expire_one k s ≡ (ok 0, s) = unfold expire_one in ground arith in
        rw e (unfold step view in ground arith)
    | inl waiting ↦ elim (Option-cases (find t.account_id s.store.accounts)) [
      | inl absent ↦ unfold expire_one in ground (arith, select_missing t.account_id s absent)
      | inr (row, held) ↦
          let (a, im, l) = select-Loaded t.account_id s row held in
          let id = find-id k t s.store.transactions found in
          let there = subst (λ j. find j s.store.transactions ≡ some t) (sym id) found in
          rw (expire_staged k s t found waiting l clean.flushed) (
            commit-Implements (expire k) _ _ (λ db' flushed. rw (← id) (
              expired t.id (view s.store) (entry_of t) (view-entry s.store t.id t there) waiting
              ∙ view_refunded s t row a im clean l there (some (expired_description t.description))
                  db' flushed)))
    ]
  ]
]

-- In a clean session a successful confirmation that returns has done to the book what the command
-- `confirm` says: the transaction was pending and is completed, its amount stands on the recipient's
-- account, and a completed transaction of the recipient over it is under an id that was free. One that
-- raises has left the book as it was.
pub process_payment_succeeded-Implements :
    (k n : ℕ) (amount : Decimal) (s : Session)
    → IsClean s
    → Implements (confirm k n) s.store (process_payment_succeeded k amount n s)
process_payment_succeeded-Implements k n amount s clean =
    elim (Outcome-cases (checked succeeded_refusals k amount (find k s.store.transactions))) [
      | inl ((t, c), passed) ↦
          let p = checked-Passes succeeded_refusals k amount s t c passed in
          elim (Option-cases t.related_account_id) [
            | inl unrelated ↦ unfold process_payment_succeeded load_pending in ground arith
            | inr (q, related) ↦ elim (Option-cases (find q s.store.accounts)) [
              | inl absent ↦
                  unfold process_payment_succeeded load_pending in
                  ground (arith, select_missing q s absent)
              | inr (row, found) ↦
                  let (a, im, l) = select-Loaded q s row found in
                  rw (succeeded_staged k n amount s t c q passed related l clean.flushed) (
                    commit-Implements (confirm k n) _ _ (λ db' flushed.
                      rw (← checked-id succeeded_refusals k amount s t c passed) (
                        view_confirmed s t row a im clean q l n p.found p.pending related db'
                          (rw (← p.same) at flushed))))
            ]
          ]
      | inr (e, refused) ↦ unfold process_payment_succeeded load_pending in ground arith
    ]
