-- ===== src/Interleaving/Settling.antt =====
-- The settling of a payment keeps the invariant of the money, also where a session has loaded old
-- balances.
use Prim.Native.String.{String}
use text.Mathlib.Text.{◌==◌ as str_eq}
use banking_payments_api.Prelude.Lists.{All}
use mathlib.Core.Path.{subst}
use banking_payments_api.Prelude.{ℕ, Option, none, some, List, inl, inr, Bool-cases, Option-cases}
use banking_payments_api.Prelude.Int.{ℤ, pos, ◌+ℤ◌, ◌≤ℤ◌, add_nonneg}
use banking_payments_api.Store.Tables.{find, All-find}
use banking_payments_api.Store.Models.{
  Account, Transaction, TransactionStatus, is_pending, transaction_id,
}
use banking_payments_api.Store.Decimal.{Decimal}
use banking_payments_api.Store.Errors.{Outcome-cases}
use banking_payments_api.Store.Schema.{insert_transaction, set_status}
use banking_payments_api.Store.Session.{
  Action, pure, gets, scalar_one, ◌>>=◌, ◌>>◌, register, commit, select_account, assign_balance,
}
use banking_payments_api.Ledger.Sound.{IsSolvent, IsPositive}
use banking_payments_api.Webhooks.{
  Refusals, succeeded_refusals, failed_refusals, checked, load_pending, select_related,
  transfer_row, process_payment_succeeded, process_payment_failed, confirm,
}
use banking_payments_api.Webhooks.Settling.{checked-ok}
use banking_payments_api.Cleanup.{expire_one, expire_found, expired_description}
use banking_payments_api.Interleaving.Changes.{money}
use banking_payments_api.Interleaving.Triples.{
  Sound, Anything, IfAny, bind-Sound, any-Sound, then-Sound, one-Sound, pure-Sound, gets-Sound,
  scalar_one-Sound, register-Sound, commit-Sound, assign_balance-Sound, select_account-Sound,
}

-- what the checks let through: a recorded transaction and its amount
abbrev IsChecked : Transaction × ℤ → Type 0
IsChecked (t, c) = pos 1 ≤ℤ c

load_pending-Sound :
    (refuse : Refusals) (k : ℕ) (amount : Decimal)
    → Sound money IsChecked (load_pending refuse k amount)
unfolding load_pending
load_pending-Sound refuse k amount = record {
  keeps = λ s h fit. elim (Outcome-cases (checked refuse k amount (find k s.store.transactions))) [
    | inl ((t, c), e) ↦
        let (found, _, _, same) = checked-ok refuse k amount (find k s.store.transactions) t c e in
        let positive = All-find IsPositive k t s.store.transactions h.positive found in
        rw e (h, (fit, subst (λ x. pos 1 ≤ℤ x) same positive))
    | inr (x, e) ↦ rw e h
  ];
}

select_related-Sound : (o : Option ℕ) → Sound money (IfAny IsSolvent) (select_related o)
unfolding select_related
select_related-Sound none = pure-Sound none tt
select_related-Sound (some k) = select_account-Sound k

process_payment_succeeded-Sound :
    (k : ℕ) (amount : Decimal) (n : ℕ) → Sound money Anything (process_payment_succeeded k amount n)
unfolding process_payment_succeeded
process_payment_succeeded-Sound k amount n =
    let credit : Transaction → ℤ → Account → Action (Unit {0}) = λ t c a. (do
      assign_balance a (a.balance +ℤ c)
      now ← gets (λ s. s.now)
      register (insert_transaction (transfer_row n a.id t.account_id c t.description now))
      register (set_status t.id TransactionStatus.completed t.description)
      commit) in
    let rest : Transaction × ℤ → Action (Unit {0}) =
      λ r. (select_related r.0.related_account_id >>= scalar_one >>= credit r.0 r.1) in
    bind-Sound {f = rest} (load_pending-Sound succeeded_refusals k amount) (λ (t, c) p.
      bind-Sound {f = credit t c}
        (bind-Sound {f = scalar_one} (select_related-Sound t.related_account_id) scalar_one-Sound)
        (λ a q. then-Sound (assign_balance-Sound a (a.balance +ℤ c) (add_nonneg a.balance c q p)) (
          any-Sound (gets-Sound (λ s. s.now)) (λ now.
            then-Sound
              (register-Sound
                (insert_transaction (transfer_row n a.id t.account_id c t.description now)) p)
              (then-Sound
                (register-Sound (set_status t.id TransactionStatus.completed t.description) tt)
                commit-Sound)))))

process_payment_failed-Sound :
    (k : ℕ) (amount : Decimal) → Sound money Anything (process_payment_failed k amount)
unfolding process_payment_failed
process_payment_failed-Sound k amount =
    let refund : Transaction → ℤ → Account → Action (Unit {0}) = λ t c a. (do
      assign_balance a (a.balance +ℤ c)
      register (set_status t.id TransactionStatus.failed t.description)
      commit) in
    let rest : Transaction × ℤ → Action (Unit {0}) =
      λ r. (select_account r.0.account_id >>= scalar_one >>= refund r.0 r.1) in
    bind-Sound {f = rest} (load_pending-Sound failed_refusals k amount) (λ (t, c) p.
      bind-Sound {f = refund t c} (one-Sound t.account_id) (λ a q.
        then-Sound (assign_balance-Sound a (a.balance +ℤ c) (add_nonneg a.balance c q p)) (
          then-Sound (register-Sound (set_status t.id TransactionStatus.failed t.description) tt)
            commit-Sound)))

pub confirm-Sound :
    (event_type : String) (k : ℕ) (amount : Decimal) (n : ℕ)
    → Sound money Anything (confirm event_type k amount n)
unfolding confirm
confirm-Sound event_type k amount n = elim (Bool-cases (str_eq event_type "payment.succeeded")) [
  | inl succeeded ↦ rw succeeded (process_payment_succeeded-Sound k amount n)
  | inr failed ↦ rw failed (process_payment_failed-Sound k amount)
]

expire_found-Sound :
    (o : Option Transaction) → IfAny IsPositive o → Sound money Anything (expire_found o)
unfolding expire_found
expire_found-Sound none p = pure-Sound 0 tt
expire_found-Sound (some t) p =
    let expired =
      set_status t.id TransactionStatus.failed (some (expired_description t.description)) in
    let refund : Account → Action ℕ =
      λ a. (do assign_balance a (a.balance +ℤ t.amount); register expired; commit; pure 1) in
    elim (Bool-cases (is_pending t.status)) [
      | inr settled ↦ rw settled (pure-Sound 0 tt)
      | inl pending ↦ rw pending (
          bind-Sound {f = refund} (one-Sound t.account_id) (λ a q.
            then-Sound
              (assign_balance-Sound a (a.balance +ℤ t.amount) (add_nonneg a.balance t.amount q p))
              (then-Sound (register-Sound expired tt) (then-Sound commit-Sound (pure-Sound 1 tt)))))
    ]

found-IsPositive :
    (k : ℕ) (ts : List Transaction) → All IsPositive ts → IfAny IsPositive (find k ts)
found-IsPositive k ts all = elim (Option-cases (find k ts)) [
  | inl absent ↦ rw absent tt
  | inr (t, found) ↦ rw found (All-find IsPositive k t ts all found)
]

pub expire_one-Sound : (k : ℕ) → Sound money Anything (expire_one k)
unfolding expire_one
expire_one-Sound k = record {
  keeps = λ s h fit.
      (expire_found-Sound (find k s.store.transactions)
          (found-IsPositive k s.store.transactions h.positive)).keeps
        s h fit;
}
