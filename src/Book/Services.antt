-- ===== src/Book/Services.antt =====
-- The services do to the book what the commands say.
use mathlib.Core.Path.{subst}
use banking_payments_api.Prelude.{
  ℕ, ◌≡◌, refl, Option, none, some, true, false, List, arith, inl, inr, Option-cases, Bool-cases,
}
use banking_payments_api.Prelude.Int.{ℤ, ◌+ℤ◌, ◌-ℤ◌, ltb_ℤ}
use banking_payments_api.Store.Tables.{find}
use banking_payments_api.Store.Models.{
  Database, Account, account_id, transaction_id, pending, failed, completed,
}
use banking_payments_api.Store.Errors.{Outcome, ok, raise, Outcome-cases}
use banking_payments_api.Store.Schema.{set_balance, apply, flush}
use banking_payments_api.Store.Session.{Session, commit, pure, ◌>>◌}
use banking_payments_api.Store.Session.Loading.{
  IsClean, Loaded, Loaded-balance, select_missing, select-Loaded,
}
use banking_payments_api.Ledger.Flow.{flush-cons, flush-one}
use banking_payments_api.Ledger.Moves.{commit_flushed, commit_failed}
use banking_payments_api.Book.{Book, Command, deposit, pay, set, write, step}
use banking_payments_api.Book.View.{view, view-balance, view-set_balance, view-insert_transaction}
use banking_payments_api.Payments.{deposit_row, payment_row, execute_deposit, execute_payment}
use banking_payments_api.Payments.Effect.{deposit_staged, payment_refused, payment_staged}

-- An action that returns has done to the book what the command says, and one that raises nothing.
abbrev pub Implements : {A : Type 0} → Command → Database → Outcome A × Session → Type 0
Implements c db (ok _, s') = step c (view db) ≡ some (view s'.store)
Implements c db (raise _, s') = view s'.store ≡ view db

pub commit-Implements :
    {A : Type 0} (c : Command) (a : A) (s : Session)
    → ((db' : Database)
        → flush s.now s.unflushed s.store ≡ ok db'
        → step c (view s.store) ≡ some (view db'))
    → Implements c s.store ((commit >> pure a) s)
commit-Implements c a s flow = elim (Outcome-cases (flush s.now s.unflushed s.store)) [
  | inl (db', flushed) ↦ rw (commit_flushed a s flushed) (flow db' flushed)
  | inr (e, failure) ↦ rw (commit_failed a s failure) refl
]

module _ (s : Session) (k : ℕ) (row a : Account) (im : List Account) (current : IsClean s)
    (l : Loaded k s row a im) where
  pub same_balance : a.balance ≡ row.balance
  same_balance = Loaded-balance k s row a im current.current l

  -- the first change of a flush, a new balance of a loaded account
  pub view_balanced :
      (f : ℤ → ℤ) (mid : Database)
      → apply s.now (set_balance a.id (f a.balance)) s.store ≡ ok mid
      → view mid ≡ set k (f row.balance) (view s.store)
  view_balanced f mid e = view-set_balance s.now s.store k (f row.balance) row l.found (
      subst (λ b. apply s.now (set_balance k (f b)) s.store ≡ ok mid) same_balance
        (subst (λ j. apply s.now (set_balance j (f a.balance)) s.store ≡ ok mid) l.id e))

module _ (k n : ℕ) (x : ℤ) (book mid : Book) (b : ℤ) (held : book.balance k ≡ some b) where
  deposit_entered :
      mid ≡ set k (b +ℤ x) book
      → mid.entry n ≡ none
      → step (deposit k n x) book
        ≡ some
            (write n (record { account = k; related = none; amount = x; status = completed }) mid)
  unfolding step set
  deposit_entered e free = ground arith

  payment_entered :
      (r : ℕ)
      → ltb_ℤ b x ≡ false
      → mid ≡ set k (b -ℤ x) book
      → mid.entry n ≡ none
      → step (pay k n r x) book
        ≡ some
            (write n (record { account = k; related = some r; amount = x; status = pending }) mid)
  unfolding step set
  payment_entered r covered e free = ground arith

  payment_declined :
      (r : ℕ)
      → ltb_ℤ b x ≡ true
      → book.entry n ≡ none
      → step (pay k n r x) book
        ≡ some
            (write n (record { account = k; related = some r; amount = x; status = failed }) book)
  unfolding step set
  payment_declined r short free = ground arith

-- In a clean session a deposit that returns has done to the book what the command `deposit` says: the
-- account's balance has grown by the amount, and a completed transaction stands under an id that was
-- free. One that raises has left the book as it was.
pub execute_deposit-Implements :
    (k : ℕ) (x : ℤ) (d : Option (List ℕ)) (n : ℕ) (s : Session)
    → IsClean s
    → Implements (deposit k n x) s.store (execute_deposit k x d n s)
execute_deposit-Implements k x d n s clean = elim (Option-cases (find k s.store.accounts)) [
  | inl absent ↦ unfold execute_deposit in ground (arith, select_missing k s absent)
  | inr (row, found) ↦
      let (a, im, l) = select-Loaded k s row found in
      rw (deposit_staged k x d n s l clean.flushed) (
        commit-Implements (deposit k n x) _ _ (λ db' flushed.
          let (mid, first, rest) = flush-cons s.now _ _ s.store flushed in
          let (written, free) =
            view-insert_transaction s.now mid (deposit_row n k x d s.now)
              (flush-one s.now _ mid rest) in
          let balanced = view_balanced s k row a im clean l (λ b. b +ℤ x) mid first in
          rw written (
            deposit_entered k n x (view s.store) (view mid) row.balance
              (view-balance s.store k row found) balanced free)))
]

-- In a clean session a payment that returns has done to the book what the command `pay` says: either
-- the balance covers the amount, which leaves it for a pending transaction under an id that was free,
-- or it does not and the transaction is entered as failed. One that raises has left the book as it was.
pub execute_payment-Implements :
    (k r : ℕ) (x : ℤ) (d : Option (List ℕ)) (key n : ℕ) (s : Session)
    → IsClean s
    → Implements (pay k n r x) s.store (execute_payment k r x d key n s)
execute_payment-Implements k r x d key n s clean = elim (Option-cases (find k s.store.accounts)) [
  | inl absent ↦ unfold execute_payment in ground (arith, select_missing k s absent)
  | inr (row, found) ↦
      let (a, im, l) = select-Loaded k s row found in
      let same = same_balance s k row a im clean l in
      let held = view-balance s.store k row found in
      elim (Bool-cases (ltb_ℤ a.balance x)) [
        | inl short ↦ rw (payment_refused k r x d key n s l clean.flushed short) (
            commit-Implements (pay k n r x) _ _ (λ db' flushed.
              let (written, free) =
                view-insert_transaction s.now s.store (payment_row n k r x d key failed s.now)
                  (flush-one s.now _ s.store flushed) in
              rw written (
                payment_declined k n x (view s.store) (view s.store) row.balance held r
                  (rw same at short) free)))
        | inr covered ↦ rw (payment_staged k r x d key n s l clean.flushed covered) (
            commit-Implements (pay k n r x) _ _ (λ db' flushed.
              let (mid, first, rest) = flush-cons s.now _ _ s.store flushed in
              let (written, free) =
                view-insert_transaction s.now mid (payment_row n k r x d key pending s.now)
                  (flush-one s.now _ mid rest) in
              let balanced = view_balanced s k row a im clean l (λ b. b -ℤ x) mid first in
              rw written (
                payment_entered k n x (view s.store) (view mid) row.balance held r
                  (rw same at covered) balanced free)))
      ]
]
