-- ===== src/Payments/Rows.antt =====
-- Deposits and payments that go through, and the rows that they leave.
use banking_payments_api.Prelude.{
  inl, ℕ, ◌≡◌, ◌∙◌, Option, none, some, List, [], ◌∷◌, true, false, arith,
}
use banking_payments_api.Prelude.Int.{ℤ, ◌+ℤ◌, ◌-ℤ◌, ltb_ℤ}
use banking_payments_api.Store.Tables.{find, find-id, update}
use banking_payments_api.Store.Models.{
  Account, Transaction, Database, account_id, transaction_id, idempotency_key_id, pending, failed,
}
use banking_payments_api.Store.Decimal.{fits_numeric}
use banking_payments_api.Store.Errors.{ok}
use banking_payments_api.Store.Schema.{
  set_balance, insert_transaction, with_balance, apply, flush, transaction_error,
}
use banking_payments_api.Store.Session.{Session, select_account}
use banking_payments_api.Store.Session.Loading.{Loaded, IsClean, Loaded-balance, select-Loaded}
use banking_payments_api.Ledger.Moves.{commit_flushed}
use banking_payments_api.Payments.{deposit_row, payment_row, execute_deposit, execute_payment}
use banking_payments_api.Payments.Effect.{deposit_staged, payment_refused, payment_staged}

flush_row :
    (now : ℕ) (r : Transaction) (db : Database)
    → transaction_error db r ≡ none
    → flush now (insert_transaction r ∷ []) db
      ≡ ok (record db { transactions = r ∷ db.transactions })
unfolding flush apply
flush_row now r db accepted = ground arith

flush_balance_and_row :
    (now k : ℕ) (b : ℤ) (r : Transaction) (db : Database) (row : Account)
    → find k db.accounts ≡ some row
    → fits_numeric b ≡ true
    → transaction_error (record db { accounts = update k (with_balance now b) db.accounts }) r
      ≡ none
    → flush now (set_balance k b ∷ insert_transaction r ∷ []) db
      ≡ ok (record db {
        accounts = update k (with_balance now b) db.accounts;
        transactions = r ∷ db.transactions;
      })
unfolding flush apply
flush_balance_and_row now k b r db row held fits accepted = ground arith

-- A deposit goes through in any clean session, if the account exists, its new balance fits its
-- column and the constraints accept the new row. It adds the amount to the balance, records the
-- deposit as completed, changes nothing else in the database, and returns the row.
pub execute_deposit_credits :
    (k : ℕ) (x : ℤ) (d : Option (List ℕ)) (n : ℕ) (s : Session) (row : Account)
    → IsClean s
    → find k s.store.accounts ≡ some row
    → fits_numeric (row.balance +ℤ x) ≡ true
    → transaction_error
        (record s.store {
          accounts = update k (with_balance s.now (row.balance +ℤ x)) s.store.accounts;
        })
        (deposit_row n k x d s.now)
      ≡ none
    → (loaded : List Account) × (execute_deposit k x d n s ≡ (
      ok (deposit_row n k x d s.now),
      record s {
        store = record s.store {
          accounts = update k (with_balance s.now (row.balance +ℤ x)) s.store.accounts;
          transactions = deposit_row n k x d s.now ∷ s.store.transactions;
        };
        identity_map = loaded;
        unflushed = [];
      },
    ))
execute_deposit_credits k x d n s row clean held fits accepted =
    let (a, im, l) = select-Loaded k s row held in
    let same : a.balance ≡ row.balance = Loaded-balance k s row a im clean.current l in
    let staged = deposit_staged k x d n s l clean.flushed in
    (
      update k (λ r. record r { balance = row.balance +ℤ x }) im,
      (rw (same, l.id) at staged)
          ∙ commit_flushed (deposit_row n k x d s.now) _ (
              flush_balance_and_row s.now k (row.balance +ℤ x) (deposit_row n k x d s.now) s.store
                row held fits accepted),
    )

module _ (k r : ℕ) (x : ℤ) (d : Option (List ℕ)) (key n : ℕ) (s : Session) (row : Account)
    (clean : IsClean s) (held : find k s.store.accounts ≡ some row) where
  -- A payment that the balance covers goes through in any clean session, if the sender's account
  -- exists, its new balance fits its column and the constraints accept the new row. It takes the
  -- amount from the sender, records the payment as pending, changes nothing else in the database, and
  -- returns the row.
  pub execute_payment_reserves :
      ltb_ℤ row.balance x ≡ false
      → fits_numeric (row.balance -ℤ x) ≡ true
      → transaction_error
          (record s.store {
            accounts = update k (with_balance s.now (row.balance -ℤ x)) s.store.accounts;
          })
          (payment_row n k r x d key pending s.now)
        ≡ none
      → (loaded : List Account) × (execute_payment k r x d key n s ≡ (
        ok (payment_row n k r x d key pending s.now),
        record s {
          store = record s.store {
            accounts = update k (with_balance s.now (row.balance -ℤ x)) s.store.accounts;
            transactions = payment_row n k r x d key pending s.now ∷ s.store.transactions;
          };
          identity_map = loaded;
          unflushed = [];
        },
      ))
  execute_payment_reserves covered fits accepted =
      let (a, im, l) = select-Loaded k s row held in
      let same : a.balance ≡ row.balance = Loaded-balance k s row a im clean.current l in
      let staged = payment_staged k r x d key n s l clean.flushed (rw same covered) in
      (
        update k (λ q. record q { balance = row.balance -ℤ x }) im,
        (rw (same, l.id) at staged)
            ∙ commit_flushed (payment_row n k r x d key pending s.now) _ (
                flush_balance_and_row s.now k (row.balance -ℤ x)
                  (payment_row n k r x d key pending s.now) s.store row held fits accepted),
      )

  -- A payment that the balance does not cover is recorded as failed in any clean session, if the
  -- sender's account exists and the constraints accept the new row. No balance changes, and nothing
  -- else in the database; the row is returned.
  pub execute_payment_declines :
      ltb_ℤ row.balance x ≡ true
      → transaction_error s.store (payment_row n k r x d key failed s.now) ≡ none
      → (loaded : List Account) × (execute_payment k r x d key n s ≡ (
        ok (payment_row n k r x d key failed s.now),
        record s {
          store = record s.store {
            transactions = payment_row n k r x d key failed s.now ∷ s.store.transactions;
          };
          identity_map = loaded;
          unflushed = [];
        },
      ))
  execute_payment_declines short accepted =
      let (a, im, l) = select-Loaded k s row held in
      let same : a.balance ≡ row.balance = Loaded-balance k s row a im clean.current l in
      (
        im,
        payment_refused k r x d key n s l clean.flushed (rw same short)
            ∙ commit_flushed (payment_row n k r x d key failed s.now) _
                (flush_row s.now (payment_row n k r x d key failed s.now) s.store accepted),
      )

pub Loaded-before :
    (k : ℕ) (s : Session) (row a : Account)
    → find k s.store.accounts ≡ some row
    → find k s.identity_map ≡ some a
    → Loaded k s row a s.identity_map
unfolding select_account
Loaded-before k s row a held loaded =
    let id = find-id k row s.store.accounts held in
    record {
      selected = ground arith;
      found = held;
      id = find-id k a s.identity_map loaded;
      origin = inl loaded;
      still_current = λ current. current;
    }

-- A deposit in a session that has loaded the account before, and has nothing to write, sets the
-- balance to the loaded one and the amount, whatever the committed balance is by then, if the new
-- balance fits its column and the constraints accept the new row.
execute_deposit_overwrites :
    (k : ℕ) (x : ℤ) (d : Option (List ℕ)) (n : ℕ) (s : Session) (row a : Account)
    → find k s.store.accounts ≡ some row
    → find k s.identity_map ≡ some a
    → s.unflushed ≡ []
    → fits_numeric (a.balance +ℤ x) ≡ true
    → transaction_error
        (record s.store {
          accounts = update k (with_balance s.now (a.balance +ℤ x)) s.store.accounts;
        })
        (deposit_row n k x d s.now)
      ≡ none
    → execute_deposit k x d n s ≡ (
      ok (deposit_row n k x d s.now),
      record s {
        store = record s.store {
          accounts = update k (with_balance s.now (a.balance +ℤ x)) s.store.accounts;
          transactions = deposit_row n k x d s.now ∷ s.store.transactions;
        };
        identity_map = update k (λ r. record r { balance = a.balance +ℤ x }) s.identity_map;
        unflushed = [];
      },
    )
execute_deposit_overwrites k x d n s row a held loaded clean fits accepted =
    let l = Loaded-before k s row a held loaded in
    (rw l.id at (deposit_staged k x d n s l clean))
    ∙ commit_flushed (deposit_row n k x d s.now) _ (
        flush_balance_and_row s.now k (a.balance +ℤ x) (deposit_row n k x d s.now) s.store row held
          fits accepted)
