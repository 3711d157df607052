-- ===== src/Payments/Effect.antt =====
-- What a deposit and a payment do to the funds of the bank.
use banking_payments_api.Prelude.{
  ℕ, ◌≡◌, ap, Option, List, [], ◌∷◌, arith, inl, inr, Option-cases, Bool-cases, true, false,
}
use banking_payments_api.Prelude.Int.{
  ℤ, pos, ◌+ℤ◌, ◌-ℤ◌, ◌≤ℤ◌, ltb_ℤ, add_nonneg, sub_nonneg, int_laws,
}
use banking_payments_api.Store.Tables.{find, update}
use banking_payments_api.Store.Models.{Account, Database, Transaction, account_id, pending, failed}
use banking_payments_api.Store.Schema.{set_balance, insert_transaction}
use banking_payments_api.Store.Session.{Session, assign_balance, commit, pure, ◌>>◌}
use banking_payments_api.Store.Session.Loading.{IsClean, Loaded, select_missing, select-Loaded}
use banking_payments_api.Ledger.{held_by}
use banking_payments_api.Ledger.Flow.{flush-one, funds-insert_transaction, apply-insert_transaction}
use banking_payments_api.Ledger.Moves.{
  Moves, Adds, SameRecords, SameRecords-insert, commit-Moves, staged-Moves,
}
use banking_payments_api.Ledger.Sound.{IsPositive, insert_transaction-IsSound, Loaded-nonneg}
use banking_payments_api.Payments.{deposit_row, payment_row, execute_deposit, execute_payment}

-- A new row behind the balance.
Adds-row :
    (now : ℕ) (t : Transaction) (db mid : Database)
    → IsPositive t
    → Adds now (insert_transaction t ∷ []) (held_by t) db mid
Adds-row now t db mid positive db' flushed =
    let e = flush-one now (insert_transaction t) mid flushed in
    (
      funds-insert_transaction now mid t e,
      ap (λ (x : Database). x.accounts) (apply-insert_transaction now mid t e),
      SameRecords-insert now t mid db' e,
      λ _ h. insert_transaction-IsSound now mid t e positive h,
    )

module _ (k : ℕ) (x : ℤ) (d : Option (List ℕ)) (n : ℕ) (s : Session) where
  -- what is left of a deposit once the account is loaded
  pub deposit_staged :
      {row a : Account} {im : List Account}
      → Loaded k s row a im
      → s.unflushed ≡ []
      → execute_deposit k x d n s
        ≡ (commit >> pure (deposit_row n k x d s.now)) (record s {
          identity_map = update a.id (λ r. record r { balance = a.balance +ℤ x }) im;
          unflushed =
              set_balance a.id (a.balance +ℤ x)
              ∷ insert_transaction (deposit_row n k x d s.now)
              ∷ [];
        })
  unfolding execute_deposit assign_balance
  deposit_staged l clean = ground arith

  -- In a clean session a deposit of a positive amount either raises and writes nothing, or the funds
  -- of the bank grow by the amount, no balance is negative if none was, no other table changes, and
  -- the session is clean again.
  pub execute_deposit-Moves :
      pos 1 ≤ℤ x → IsClean s → Moves SameRecords s.store x (execute_deposit k x d n s)
  unfolding held_by
  execute_deposit-Moves positive clean = elim (Option-cases (find k s.store.accounts)) [
    | inl absent ↦ unfold execute_deposit in ground (arith, select_missing k s absent)
    | inr (row, found) ↦
        let (a, im, l) = select-Loaded k s row found in
        rw (deposit_staged l clean.flushed) (
          staged-Moves _ k s row a im (a.balance +ℤ x) (pos 0) x _ clean.current l (omega int_laws)
            (λ h. add_nonneg a.balance x (Loaded-nonneg k s row a im clean.current l h) positive)
            (λ mid _. Adds-row s.now (deposit_row n k x d s.now) s.store mid positive))
  ]

module _ (k r : ℕ) (x : ℤ) (d : Option (List ℕ)) (key n : ℕ) (s : Session) where
  -- what is left of a payment once the sender is loaded, on either branch
  pub payment_refused :
      {row a : Account} {im : List Account}
      → Loaded k s row a im
      → s.unflushed ≡ []
      → ltb_ℤ a.balance x ≡ true
      → execute_payment k r x d key n s
        ≡ (commit >> pure (payment_row n k r x d key failed s.now)) (record s {
          identity_map = im;
          unflushed = insert_transaction (payment_row n k r x d key failed s.now) ∷ [];
        })
  unfolding execute_payment assign_balance
  payment_refused l clean short = ground arith

  pub payment_staged :
      {row a : Account} {im : List Account}
      → Loaded k s row a im
      → s.unflushed ≡ []
      → ltb_ℤ a.balance x ≡ false
      → execute_payment k r x d key n s
        ≡ (commit >> pure (payment_row n k r x d key pending s.now)) (record s {
          identity_map = update a.id (λ q. record q { balance = a.balance -ℤ x }) im;
          unflushed =
              set_balance a.id (a.balance -ℤ x)
              ∷ insert_transaction (payment_row n k r x d key pending s.now)
              ∷ [];
        })
  unfolding execute_payment assign_balance
  payment_staged l clean covered = ground arith

  -- In a clean session a payment of a positive amount either raises and writes nothing, or it keeps
  -- the funds of the bank (what leaves the sender's account is reserved by the new row), no balance
  -- is negative if none was, no other table changes, and the session is clean again.
  pub execute_payment-Moves :
      pos 1 ≤ℤ x → IsClean s → Moves SameRecords s.store (pos 0) (execute_payment k r x d key n s)
  unfolding held_by
  execute_payment-Moves positive clean = elim (Option-cases (find k s.store.accounts)) [
    | inl absent ↦ unfold execute_payment in ground (arith, select_missing k s absent)
    | inr (row, found) ↦
        let (a, im, l) = select-Loaded k s row found in
        elim (Bool-cases (ltb_ℤ a.balance x)) [
          | inl short ↦ rw (payment_refused l clean.flushed short) (
              commit-Moves _ _ SameRecords (pos 0) (λ db' flushed.
                let (moved, same, records, sound) =
                  Adds-row s.now (payment_row n k r x d key failed s.now) s.store s.store positive
                    db' flushed in
                (
                  record { funds = moved; sound = λ h. sound h h; frame = records },
                  rw same (l.still_current clean.current),
                )))
          | inr covered ↦ rw (payment_staged l clean.flushed covered) (
              staged-Moves _ k s row a im (a.balance -ℤ x) x (pos 0) _ clean.current l
                (omega int_laws) (λ _. sub_nonneg a.balance x covered)
                (λ mid _.
                  Adds-row s.now (payment_row n k r x d key pending s.now) s.store mid positive))
        ]
  ]
