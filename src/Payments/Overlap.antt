-- ===== src/Payments/Overlap.antt =====
-- Two sessions on one balance: what a deposit does in a session that has loaded the account before
-- another session changed it.
use banking_payments_api.Prelude.{
  ℕ, ◌≡◌, sym, ap, ◌∙◌, Option, none, some, List, [], ◌∷◌, arith, inl, inr, Option-cases,
}
use banking_payments_api.Prelude.Int.{ℤ, pos, pos_part, neg_part, ◌+ℤ◌, ◌≤ℤ◌, int_laws}
use banking_payments_api.Store.Tables.{find}
use banking_payments_api.Store.Models.{Database, Account, Transaction, account_id, completed}
use banking_payments_api.Store.Errors.{Outcome, ok, Outcome-cases}
use banking_payments_api.Store.Schema.{set_balance, insert_transaction, flush}
use banking_payments_api.Store.Session.{Session}
use banking_payments_api.Store.Session.Loading.{IsClean}
use banking_payments_api.Ledger.{funds, held_by}
use banking_payments_api.Ledger.Flow.{
  flush-cons, flush-one, funds-set_balance, funds-insert_transaction,
}
use banking_payments_api.Ledger.Moves.{Moved, SameRecords, commit_flushed, commit_failed}
use banking_payments_api.Book.{Book, Entry, Command, step, write, set, put}
use banking_payments_api.Book.View.{view, view-balance}
use banking_payments_api.Book.Services.{execute_deposit-Implements}
use banking_payments_api.Payments.{deposit_row, execute_deposit}
use banking_payments_api.Payments.Effect.{deposit_staged, execute_deposit-Moves}
use banking_payments_api.Payments.Rows.{Loaded-before}

-- the command credits the account
deposit_credits :
    (k n : ℕ) (x b : ℤ) (book book' : Book)
    → book.balance k ≡ some b
    → step (Command.deposit k n x) book ≡ some book'
    → book'.balance k ≡ some (b +ℤ x)
unfolding step set write
deposit_credits k n x b book book' held done = elim (Option-cases (book.entry n)) [
  | inl free ↦
      let entered : Entry = record {
        account = k;
        related = none;
        amount = x;
        status = completed;
      } in
      let e : write n entered (set k (b +ℤ x) book) ≡ book' = ground arith in
      let put_there : put k (b +ℤ x) book.balance k ≡ some (b +ℤ x) = ground arith in
      sym (ap (λ (o : Book). o.balance k) e) ∙ put_there
  | inr (t, taken) ↦ absurd (ground arith)
]

balance_row :
    (db : Database) (k : ℕ) (b : ℤ)
    → (view db).balance k ≡ some b
    → (row : Account) × (find k db.accounts ≡ some row) × (row.balance ≡ b)
unfolding view
balance_row db k b h = elim (Option-cases (find k db.accounts)) [
  | inl gone ↦ absurd (ground arith)
  | inr (row, found) ↦ (row, found, ground arith)
]

-- A deposit writes the loaded balance and its amount, whatever the committed balance is.
module _ (k : ℕ) (x : ℤ) (d : Option (List ℕ)) (n : ℕ) (s s' : Session) (row a : Account)
    (t : Transaction) (held : find k s.store.accounts ≡ some row)
    (loaded : find k s.identity_map ≡ some a) (flushed : s.unflushed ≡ [])
    (done : execute_deposit k x d n s ≡ (ok t, s')) where
  stale_funds : funds s'.store +ℤ row.balance ≡ funds s.store +ℤ (a.balance +ℤ x)
  unfolding held_by
  stale_funds =
      let l = Loaded-before k s row a held loaded in
      let staged = deposit_staged k x d n s l flushed in
      let changes =
        set_balance a.id (a.balance +ℤ x) ∷ insert_transaction (deposit_row n k x d s.now) ∷ [] in
      elim (Outcome-cases (flush s.now changes s.store)) [
        | inl (db', written) ↦
            let (mid, first, rest) = flush-cons s.now _ _ s.store written in
            let found : find a.id s.store.accounts ≡ some row = rw l.id held in
            let p = funds-set_balance s.now s.store a.id (a.balance +ℤ x) row found first in
            let q =
              funds-insert_transaction s.now mid (deposit_row n k x d s.now)
                (flush-one s.now _ mid rest) in
            let ends = sym done ∙ (staged ∙ commit_flushed _ _ written) in
            let same : s'.store ≡ db' =
              ap (λ (r : Outcome Transaction × Session). r.1.store) ends in
            rw same (omega (int_laws, ap pos_part p, ap neg_part p, ap pos_part q, ap neg_part q))
        | inr (e, failure) ↦
            let ends = sym done ∙ (staged ∙ commit_failed _ _ failure) in absurd (ground arith)
      ]

-- Two sessions make deposits to one account, and the first has loaded the account before the second
-- writes: if both deposits succeed, the funds have grown by the first amount only. The second deposit,
-- which was there in between, is lost from the balance.
pub overlapping_deposits_lose :
    (k : ℕ) (x y : ℤ) (d d' : Option (List ℕ)) (n n' : ℕ) (s s' other other' : Session)
    (a : Account) (t t' : Transaction)
    → pos 1 ≤ℤ y
    → IsClean s
    → find k s.identity_map ≡ some a
    → IsClean other
    → other.store ≡ s.store
    → execute_deposit k y d' n' other ≡ (ok t', other')
    → execute_deposit k x d n (record s { store = other'.store }) ≡ (ok t, s')
    → (funds other'.store ≡ funds s.store +ℤ y) × (funds s'.store ≡ funds s.store +ℤ x)
overlapping_deposits_lose k x y d d' n n' s s' other other' a t t' positive clean loaded clean' same
      between done =
    let (row, found, current) = clean.current k a loaded in
    let found' : find k other.store.accounts ≡ some row =
      ap (λ (db : Database). find k db.accounts) same ∙ found in
    let moved : Moved SameRecords other.store y other' =
      rw between at (execute_deposit-Moves k y d' n' other positive clean') in
    let did : step (Command.deposit k n' y) (view other.store) ≡ some (view other'.store) =
      rw between at (execute_deposit-Implements k y d' n' other clean') in
    let (row', held, sum) = balance_row other'.store k (row.balance +ℤ y) (
      deposit_credits k n' y row.balance (view other.store) (view other'.store)
        (view-balance other.store k row found') did) in
    let grown = moved.funds ∙ ap (λ db. funds db +ℤ y) same in
    let stale =
      stale_funds k x d n (record s { store = other'.store }) s' row' a t held loaded clean.flushed
        done in
    (
      grown,
      omega (
        int_laws,
        ap pos_part stale,
        ap neg_part stale,
        ap pos_part grown,
        ap neg_part grown,
        ap pos_part sum,
        ap neg_part sum,
        ap pos_part current,
        ap neg_part current,
      ),
    )
