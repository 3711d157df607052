-- ===== src/Interleaving/Money.antt =====
-- Deposits and payments keep what is watched, also where a session has loaded old balances.
use banking_payments_api.Prelude.{◌≡◌, false, ℕ, Option, List, inl, inr, Bool-cases}
use banking_payments_api.Prelude.Int.{ℤ, pos, ◌+ℤ◌, ◌-ℤ◌, ◌≤ℤ◌, ltb_ℤ, add_nonneg, sub_nonneg}
use banking_payments_api.Store.Models.{Account, Transaction, TransactionStatus, transaction_id}
use banking_payments_api.Store.Schema.{insert_transaction}
use banking_payments_api.Store.Session.{
  Action, pure, gets, ◌>>=◌, ◌>>◌, register, commit, assign_balance,
}
use banking_payments_api.Payments.{
  execute_deposit, execute_payment, deposit_row, payment_row, reserve_funds,
}
use banking_payments_api.Interleaving.Triples.{
  Sound, Anything, bind-Sound, any-Sound, then-Sound, one-Sound, pure-Sound, gets-Sound,
  register-Sound, commit-Sound, assign_balance-Sound,
}
use banking_payments_api.Interleaving.Changes.{Watch, money, entries, IsSafeAccount, IsSafeBalance}

-- A credited balance is safe, and one that covers what is taken.
pub credit-Safe :
    (w : Watch) (a : Account) (x : ℤ)
    → IsSafeAccount w a
    → pos 1 ≤ℤ x
    → IsSafeBalance w (a.balance +ℤ x)
credit-Safe money a x q p = add_nonneg a.balance x q p
credit-Safe (entries base) a x q p = tt

debit-Safe :
    (w : Watch) (a : Account) (x : ℤ) → ltb_ℤ a.balance x ≡ false → IsSafeBalance w (a.balance -ℤ x)
debit-Safe money a x covered = sub_nonneg a.balance x covered
debit-Safe (entries base) a x covered = tt

module _ {w : Watch} where
  pub execute_deposit-Sound :
      (k : ℕ) (x : ℤ) (d : Option (List ℕ)) (n : ℕ)
      → pos 1 ≤ℤ x
      → Sound w Anything (execute_deposit k x d n)
  unfolding execute_deposit
  execute_deposit-Sound k x d n p =
      let row = deposit_row n k x d in
      let rest : Account → Action Transaction = λ a. (do
        assign_balance a (a.balance +ℤ x)
        now ← gets (λ s. s.now)
        register (insert_transaction (row now))
        commit
        pure (row now)) in
      bind-Sound {f = rest} (one-Sound k) (λ a q.
        then-Sound (assign_balance-Sound a (a.balance +ℤ x) (credit-Safe w a x q p)) (
          any-Sound (gets-Sound (λ s. s.now)) (λ now.
            then-Sound (register-Sound (insert_transaction (row now)) p)
              (then-Sound commit-Sound (pure-Sound (row now) tt)))))

  reserve_funds-Sound :
      (a : Account) (x : ℤ) → IsSafeAccount w a → Sound w Anything (reserve_funds a x)
  unfolding reserve_funds
  reserve_funds-Sound a x q = elim (Bool-cases (ltb_ℤ a.balance x)) [
    | inl short ↦ rw short (pure-Sound TransactionStatus.failed tt)
    | inr covered ↦ rw covered (
        then-Sound (assign_balance-Sound a (a.balance -ℤ x) (debit-Safe w a x covered))
          (pure-Sound TransactionStatus.pending tt))
  ]

  pub execute_payment-Sound :
      (k r : ℕ) (x : ℤ) (d : Option (List ℕ)) (key n : ℕ)
      → pos 1 ≤ℤ x
      → Sound w Anything (execute_payment k r x d key n)
  unfolding execute_payment
  execute_payment-Sound k r x d key n p =
      let row = payment_row n k r x d key in
      let rest : Account → Action Transaction = λ a. (do
        status ← reserve_funds a x
        now ← gets (λ s. s.now)
        register (insert_transaction (row status now))
        commit
        pure (row status now)) in
      bind-Sound {f = rest} (one-Sound k) (λ a q. any-Sound (reserve_funds-Sound a x q) (λ status.
        any-Sound (gets-Sound (λ s. s.now)) (λ now.
          then-Sound (register-Sound (insert_transaction (row status now)) p)
            (then-Sound commit-Sound (pure-Sound (row status now) tt)))))
