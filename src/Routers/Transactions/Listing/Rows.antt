-- ===== src/Routers/Transactions/Listing/Rows.antt =====
-- Which transactions a customer is shown.
use banking_payments_api.Prelude.{
  ℕ, ◌≤◌, ◌≡◌, refl, ◌∙◌, Bool, ◌&&◌, some, List, [], ◌∷◌, map, ◌==◌, arith,
}
use banking_payments_api.Prelude.Int.{ℤ}
use banking_payments_api.Prelude.Lists.{length, select}
use banking_payments_api.Store.Models.{User, Account, Transaction}
use banking_payments_api.Store.Errors.{ok}
use banking_payments_api.Store.Queries.{
  page, drop, tally, rank, in_page, OrdersBy, valid_limit, valid_offset,
}
use banking_payments_api.Store.Queries.Pages.{page_rows, length-take}
use banking_payments_api.Store.Session.{Session, >>=-of_ok}
use banking_payments_api.Dependencies.{get_current_account}
use banking_payments_api.Schemas.{TransactionOut, transaction_out}
use banking_payments_api.Routers.Transactions.Listing.{
  with_page, transactions_of, list_my_transactions,
}

tally-map :
    {A B : Type 0} (p : B → Bool) (f : A → B) (xs : List A)
    → tally p (map f xs) ≡ tally (λ x. p (f x)) xs
tally-map p f [] = refl
tally-map p f (x ∷ xs) = ground (arith, tally-map p f xs)

length-map : {A B : Type 0} (f : A → B) (xs : List A) → length (map f xs) ≡ length xs
length-map f [] = refl
length-map f (x ∷ xs) = omega (arith, length-map f xs)

tally-select :
    {A : Type 0} (p q : A → Bool) (xs : List A) → tally p (select q xs) ≡ tally (λ x. q x && p x) xs
tally-select p q [] = refl
tally-select p q (x ∷ xs) = ground (arith, tally-select p q xs)

valid_limit_bounds : (limit : ℤ) (n : ℕ) → valid_limit limit ≡ some n → (1 ≤ n) × (n ≤ 100)
unfolding valid_limit
valid_limit_bounds limit n valid = ground arith

-- the transactions of an account
abbrev pub own : ℕ → List Transaction → List Transaction
own account_id = select (λ t. t.account_id == account_id)

abbrev pub created : Transaction → ℕ
created t = t.created_at

-- A query for one's own transactions with a limit from 1 to 100 and an offset succeeds for a user
-- whose account is found. If no two transactions of the account have one creation time, the answer
-- has at most `limit` rows and exactly those transactions of the account of which `offset` up to
-- `offset + limit - 1` others of the account are newer: a row is counted by any test on the answer as
-- often as the rows of the database are by that test and these conditions.
pub list_my_transactions_rows :
    (newest_first : List Transaction → List Transaction) (user : User) (limit offset : ℤ) (n o : ℕ)
    (account : Account) (s s' : Session)
    → OrdersBy created newest_first
    → get_current_account user s ≡ (ok account, s')
    → valid_limit limit ≡ some n
    → valid_offset offset ≡ some o
    → ((t : Transaction)
        → tally (λ u. u.created_at == t.created_at) (own account.id s'.store.transactions) ≤ 1)
    → (answer : List TransactionOut) × (list_my_transactions newest_first user limit offset s
        ≡ (ok answer, s'))
      × (length answer ≤ n)
      × (n ≤ 100)
      × ((p : TransactionOut → Bool)
          → tally p answer
            ≡ tally
                (λ t.
                  t.account_id == account.id
                  && (p (transaction_out t)
                      && in_page n o (rank created (own account.id s'.store.transactions) t)))
                s'.store.transactions)
unfolding list_my_transactions page
list_my_transactions_rows newest_first user limit offset n o account s s' sorts found valid_n
      valid_o distinct =
    let mine = own account.id s'.store.transactions in
    let shown = page n o (newest_first mine) in
    (
      map transaction_out shown,
      >>=-of_ok (get_current_account user)
            (λ a.
              with_page (transactions_of newest_first a.id) (valid_limit limit)
                (valid_offset offset))
            found
          ∙ rw (valid_n, valid_o) (unfold transactions_of in refl),
      omega (arith, length-map transaction_out shown, length-take n (drop o (newest_first mine))),
      (valid_limit_bounds limit n valid_n).1,
      λ p.
          tally-map p transaction_out shown
          ∙ (page_rows created newest_first sorts (λ t. p (transaction_out t)) n o mine distinct
              ∙ tally-select _ (λ t. t.account_id == account.id) s'.store.transactions),
    )
