-- ===== src/Webhooks/Settling.antt =====
-- What the two confirmation services do to the funds of the bank.
use mathlib.Core.Path.{subst}
use banking_payments_api.Prelude.{
  ℕ, ◌≡◌, refl, sym, ap, Option, none, some, List, [], ◌∷◌, true, arith, inl, inr, Option-cases,
}
use banking_payments_api.Prelude.Int.{
  ℤ, pos, pos_part, neg_part, ◌+ℤ◌, ◌-ℤ◌, ◌≤ℤ◌, add_nonneg, eqb_ℤ→eq, int_laws,
}
use banking_payments_api.Store.Tables.{find, find-id, update, All-find}
use banking_payments_api.Store.Models.{
  Account, Transaction, account_id, transaction_id, is_pending, completed, failed,
}
use banking_payments_api.Store.Decimal.{Decimal, cents}
use banking_payments_api.Store.Errors.{ok, Outcome-cases}
use banking_payments_api.Store.Schema.{set_balance, insert_transaction, set_status}
use banking_payments_api.Store.Session.{Session, assign_balance, commit, pure, ◌>>◌}
use banking_payments_api.Store.Session.Loading.{IsClean, Loaded, select_missing, select-Loaded}
use banking_payments_api.Ledger.{held_by}
use banking_payments_api.Ledger.Moves.{Moves, SameRecords, staged-Moves}
use banking_payments_api.Ledger.Sound.{IsSound, IsPositive, Loaded-nonneg}
use banking_payments_api.Ledger.Settlement.{Adds-status, Adds-row_and_status, find-set_balance}
use banking_payments_api.Webhooks.{
  Refusals, checked, load_pending, succeeded_refusals, failed_refusals, transfer_row,
  process_payment_succeeded, process_payment_failed,
}

-- What the checks let through.
pub record Passes (k : ℕ) (amount : Decimal) (s : Session) (t : Transaction) (c : ℤ) : Type 0 where
  pub found : find t.id s.store.transactions ≡ some t
  pub pending : is_pending t.status ≡ true
  pub exact : cents amount ≡ some c
  pub same : t.amount ≡ c

pub checked-ok :
    (refuse : Refusals) (k : ℕ) (amount : Decimal) (o : Option Transaction) (t : Transaction)
    (c : ℤ)
    → checked refuse k amount o ≡ ok (t, c)
    → (o ≡ some t) × (is_pending t.status ≡ true) × (cents amount ≡ some c) × (t.amount ≡ c)
unfolding checked
checked-ok refuse k amount none t c e = cc
checked-ok refuse k amount (some u) t c e = elim (Option-cases (cents amount)) [
  | inl fraction ↦ ground arith
  | inr (d, exact) ↦ ground (arith, eqb_ℤ→eq u.amount d)
]

pub checked-Passes :
    (refuse : Refusals) (k : ℕ) (amount : Decimal) (s : Session) (t : Transaction) (c : ℤ)
    → checked refuse k amount (find k s.store.transactions) ≡ ok (t, c)
    → Passes k amount s t c
checked-Passes refuse k amount s t c e =
    let (found, pending, exact, same) =
      checked-ok refuse k amount (find k s.store.transactions) t c e in
    let id = find-id k t s.store.transactions found in
    record {
      found = subst (λ n. find n s.store.transactions ≡ some t) (sym id) found;
      pending = pending;
      exact = exact;
      same = same;
    }

-- What passes is positive, as every recorded amount is.
Passes-positive :
    (k : ℕ) (amount : Decimal) (s : Session) (t : Transaction) (c : ℤ)
    → Passes k amount s t c
    → IsSound s.store
    → pos 1 ≤ℤ c
Passes-positive k amount s t c p h =
    subst (λ x. pos 1 ≤ℤ x) p.same
      (All-find IsPositive t.id t s.store.transactions h.positive p.found)

module _ (k : ℕ) (amount : Decimal) (s : Session) (t : Transaction) (c : ℤ) {row a : Account}
    {im : List Account}
    (passed : checked failed_refusals k amount (find k s.store.transactions) ≡ ok (t, c))
    (l : Loaded t.account_id s row a im) (clean : s.unflushed ≡ []) where
  pub failed_staged :
      process_payment_failed k amount s
      ≡ (commit >> pure tt) (record s {
        identity_map = update a.id (λ r. record r { balance = a.balance +ℤ c }) im;
        unflushed = set_balance a.id (a.balance +ℤ c) ∷ set_status t.id failed t.description ∷ [];
      })
  unfolding process_payment_failed load_pending assign_balance
  failed_staged = ground (arith, l.selected)

-- In a clean session a failed confirmation either raises and writes nothing, or it gives the reserved
-- money back to the sender: the funds of the bank stay as they were, no balance is negative if none
-- was, no other table changes, and the session is clean again.
pub process_payment_failed-Moves :
    (k : ℕ) (amount : Decimal) (s : Session)
    → IsClean s
    → Moves SameRecords s.store (pos 0) (process_payment_failed k amount s)
process_payment_failed-Moves k amount s clean =
    elim (Outcome-cases (checked failed_refusals k amount (find k s.store.transactions))) [
      | inl ((t, c), passed) ↦
          let p = checked-Passes failed_refusals k amount s t c passed in
          elim (Option-cases (find t.account_id s.store.accounts)) [
            | inl absent ↦
                unfold process_payment_failed load_pending in
                ground (arith, select_missing t.account_id s absent)
            | inr (row, found) ↦
                let (a, im, l) = select-Loaded t.account_id s row found in
                rw (failed_staged k amount s t c passed l clean.flushed) (
                  staged-Moves tt t.account_id s row a im (a.balance +ℤ c) (pos 0 -ℤ t.amount)
                    (pos 0) _ clean.current l
                    (omega (int_laws, ap pos_part p.same, ap neg_part p.same))
                    (λ h.
                      add_nonneg a.balance c
                        (Loaded-nonneg t.account_id s row a im clean.current l h)
                        (Passes-positive k amount s t c p h))
                    (λ mid e.
                      Adds-status s.now failed t.description t.id t s.store mid refl p.pending
                        (find-set_balance s.now a.id _ t.id t s.store mid e p.found)))
          ]
      | inr (e, refused) ↦ unfold process_payment_failed load_pending in ground arith
    ]

module _ (k n : ℕ) (amount : Decimal) (s : Session) (t : Transaction) (c : ℤ) (q : ℕ)
    {row a : Account} {im : List Account}
    (passed : checked succeeded_refusals k amount (find k s.store.transactions) ≡ ok (t, c))
    (related : t.related_account_id ≡ some q) (l : Loaded q s row a im)
    (clean : s.unflushed ≡ []) where
  pub succeeded_staged :
      process_payment_succeeded k amount n s
      ≡ (commit >> pure tt) (record s {
        identity_map = update a.id (λ r. record r { balance = a.balance +ℤ c }) im;
        unflushed =
            set_balance a.id (a.balance +ℤ c)
            ∷ insert_transaction (transfer_row n a.id t.account_id c t.description s.now)
            ∷ set_status t.id completed t.description
            ∷ [];
      })
  unfolding process_payment_succeeded load_pending assign_balance
  succeeded_staged = ground (arith, l.selected)

-- In a clean session a confirmed payment either raises and writes nothing, or it moves the reserved
-- money to the recipient: the funds of the bank stay as they were, no balance is negative if none
-- was, no other table changes, and the session is clean again.
pub process_payment_succeeded-Moves :
    (k n : ℕ) (amount : Decimal) (s : Session)
    → IsClean s
    → Moves SameRecords s.store (pos 0) (process_payment_succeeded k amount n s)
unfolding held_by
process_payment_succeeded-Moves k n amount s clean =
    elim (Outcome-cases (checked succeeded_refusals k amount (find k s.store.transactions))) [
      | inl ((t, c), passed) ↦
          let p = checked-Passes succeeded_refusals k amount s t c passed in
          elim (Option-cases t.related_account_id) [
            | inl unrelated ↦ unfold process_payment_succeeded load_pending in ground arith
            | inr (q, related) ↦ elim (Option-cases (find q s.store.accounts)) [
              | inl absent ↦
                  unfold process_payment_succeeded load_pending in
                  ground (arith, select_missing q s absent)
              | inr (row, found) ↦
                  let (a, im, l) = select-Loaded q s row found in
                  rw (succeeded_staged k n amount s t c q passed related l clean.flushed) (
                    staged-Moves tt q s row a im (a.balance +ℤ c) (pos 0 -ℤ t.amount) (pos 0) _
                      clean.current l (omega (int_laws, ap pos_part p.same, ap neg_part p.same))
                      (λ h.
                        add_nonneg a.balance c (Loaded-nonneg q s row a im clean.current l h)
                          (Passes-positive k amount s t c p h))
                      (λ mid e.
                        Adds-row_and_status s.now completed t.description t.id t _ s.store mid refl
                          p.pending (find-set_balance s.now a.id _ t.id t s.store mid e p.found)
                          refl (Passes-positive k amount s t c p)))
            ]
          ]
      | inr (e, refused) ↦ unfold process_payment_succeeded load_pending in ground arith
    ]
