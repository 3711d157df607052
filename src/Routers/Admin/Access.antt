-- ===== src/Routers/Admin/Access.antt =====
-- Who may see what the administration shows, and that it changes nothing.
use Prim.Native.String.{String}
use banking_payments_api.Prelude.{
  ℕ, ◌≡◌, refl, ◌∙◌, ◌==◌, ◌⊎◌, true, Bool-cases, Option, none, some, List, [], ◌∷◌, inl, inr,
  arith,
}
use banking_payments_api.Prelude.Int.{ℤ}
use banking_payments_api.Prelude.Lists.{select}
use banking_payments_api.Store.Models.{User, Account, Transaction, account_id}
use banking_payments_api.Store.Errors.{Outcome, ok, raise, http_exception}
use banking_payments_api.Store.Queries.{valid_limit, valid_offset}
use banking_payments_api.Store.Session.{
  Session, Action, Action-cases, pure, ◌>>=◌, load_row, scalar_one_or_none, select_account,
}
use banking_payments_api.Store.Session.Loading.{IsClean}
use banking_payments_api.Store.Session.Reading.{
  Reads, bind-Reads, load_row-Reads, select_account-Reads, scalar_one_or_none-Reads,
}
use banking_payments_api.Security.{Security, Decoded, payload, expired_signature, invalid_token}
use banking_payments_api.Dependencies.{
  or_404, is_access, user_or_401, user_of_sub, user_of_token, get_current_user, get_current_admin,
  get_account_or_404,
}
use banking_payments_api.Routers.Transactions.Listing.{with_page, transactions_of}
use banking_payments_api.Routers.Admin.{
  admin_accounts, shown, for_admin, list_recent_accounts, list_recent_transactions,
  list_account_transactions,
}

user_or_401-Reads : (o : Option User) (s : Session) → IsClean s → Reads s (user_or_401 o s)
unfolding user_or_401
user_or_401-Reads none s clean = (refl, clean)
user_or_401-Reads (some u) s clean = (refl, clean)

user_of_sub-Reads : (sub : Option ℕ) (s : Session) → IsClean s → Reads s (user_of_sub sub s)
unfolding user_of_sub
user_of_sub-Reads none s clean = (refl, clean)
user_of_sub-Reads (some k) s clean =
    bind-Reads (scalar_one_or_none (select (λ (u : User). u.id == k) s.store.users)) user_or_401 s
      (scalar_one_or_none-Reads (select (λ (u : User). u.id == k) s.store.users) s clean)
      user_or_401-Reads

user_of_token-Reads : (d : Decoded) (s : Session) → IsClean s → Reads s (user_of_token d s)
unfolding user_of_token
user_of_token-Reads expired_signature s clean = (refl, clean)
user_of_token-Reads invalid_token s clean = (refl, clean)
user_of_token-Reads (payload p) s clean = elim (Bool-cases (is_access p.type)) [
  | inl access ↦ rw access (user_of_sub-Reads p.sub s clean)
  | inr other ↦ rw other (refl, clean)
]

-- what a listing reads, with and without a valid page
with_page-Reads :
    {A : Type 0} (listing : ℕ → ℕ → Action A) (limit offset : Option ℕ) (s : Session)
    → IsClean s
    → ((n o : ℕ) → Reads s (listing n o s))
    → Reads s (with_page listing limit offset s)
with_page-Reads listing none offset s clean reads = (refl, clean)
with_page-Reads listing (some n) none s clean reads = (refl, clean)
with_page-Reads listing (some n) (some o) s clean reads = reads n o

admin_accounts-Reads :
    (rows : List (Account × User)) (s : Session) → IsClean s → Reads s (admin_accounts rows s)
unfolding admin_accounts
admin_accounts-Reads [] s clean = (refl, clean)
admin_accounts-Reads ((row, user) ∷ rows) s clean =
    bind-Reads (load_row (some row))
      (λ account. admin_accounts rows >>= λ rest. pure (shown user account rest)) s
      (load_row-Reads (some row) s clean)
      (λ account s₁ clean₁.
        bind-Reads (admin_accounts rows) (λ rest. pure (shown user account rest)) s₁
          (admin_accounts-Reads rows s₁ clean₁) (λ rest s₂ clean₂. (refl, clean₂)))

or_404-Reads : (o : Option Account) (s : Session) → IsClean s → Reads s (or_404 o s)
or_404-Reads none s clean = (refl, clean)
or_404-Reads (some a) s clean = (refl, clean)

get_account_or_404-Reads : (k : ℕ) (s : Session) → IsClean s → Reads s (get_account_or_404 k s)
unfolding get_account_or_404
get_account_or_404-Reads k s clean =
    bind-Reads (select_account k) or_404 s (select_account-Reads k s clean) or_404-Reads

module _ (sec : Security) (token : String) where
  -- What the check of the token has to do with an answer: its error is the answer, a user who is no
  -- administrator gets 403, and any other answer is for an administrator.
  abbrev pub Admits : {A : Type 0} → Outcome User × Session → Outcome A × Session → Type 0
  Admits (raise x, checked) r = r.0 ≡ raise x
  Admits (ok user, checked) r =
      (user.is_admin ≡ true)
      ⊎ (r.0 ≡ raise (http_exception 403 "Nu ai permisiunea necesară pentru această acțiune"))

  abbrev pub IsGuarded : {A : Type 0} → Session → Outcome A × Session → Type 0
  IsGuarded s r = (r.1.store ≡ s.store) × Admits (get_current_user sec token s) r

  get_current_user-Reads : (s : Session) → IsClean s → Reads s (get_current_user sec token s)
  unfolding get_current_user
  get_current_user-Reads s clean = user_of_token-Reads (sec.decode_token token s.now) s clean

  module _ (newest_accounts_first : List (Account × User) → List (Account × User))
      (newest_first : List Transaction → List Transaction) where
    for_admin-IsGuarded :
        {A : Type 0} (route : Action A) (s : Session)
        → IsClean s
        → ((s₁ : Session) → IsClean s₁ → Reads s₁ (route s₁))
        → IsGuarded s (for_admin newest_accounts_first newest_first sec token route s)
    unfolding for_admin get_current_admin
    for_admin-IsGuarded route s clean reads =
        let answer = for_admin newest_accounts_first newest_first sec token route s in
        elim (Action-cases (get_current_user sec token) s) [
          | inl (user, checked, found) ↦
              let (same, clean₁) : Reads s (ok user, checked) =
                rw found at (get_current_user-Reads s clean) in
              elim (Bool-cases user.is_admin) [
                | inl admin ↦
                    let e : answer ≡ route checked = ground arith in
                    rw (e, found) ((reads checked clean₁).0 ∙ same, inl admin)
                | inr other ↦
                    let e : answer ≡ (
                      raise
                          (http_exception 403 "Nu ai permisiunea necesară pentru această acțiune"),
                      checked,
                    ) =
                      ground arith in
                    rw (e, found) (same, inr refl)
              ]
          | inr (x, checked, refused) ↦
              let (same, clean₁) : Reads {A = User} s (raise x, checked) =
                rw refused at (get_current_user-Reads s clean) in
              let e : answer ≡ (raise x, checked) = ground arith in rw (e, refused) (same, refl)
        ]

    -- Each of the three listings of the administration, in a clean session and with any page, writes
    -- nothing. A token that is refused gives the error of its check, the token of a user who is no
    -- administrator gives 403, and so any other answer is for the token of an administrator.
    pub listings-IsGuarded :
        (account_id : ℕ) (limit offset : ℤ) (s : Session)
        → IsClean s
        → IsGuarded s
            (list_recent_accounts newest_accounts_first newest_first sec token limit offset s)
          × IsGuarded s
              (list_recent_transactions newest_accounts_first newest_first sec token limit offset s)
          × IsGuarded s (
              list_account_transactions newest_accounts_first newest_first sec token account_id
                limit offset s)
    unfolding list_recent_accounts list_recent_transactions list_account_transactions
    listings-IsGuarded account_id limit offset s clean =
        let l = valid_limit limit in
        let o = valid_offset offset in
        (
          for_admin-IsGuarded _ s clean
              (λ s₁ c₁. with_page-Reads _ l o s₁ c₁ (λ n m. admin_accounts-Reads _ s₁ c₁)),
          for_admin-IsGuarded _ s clean (λ s₁ c₁. with_page-Reads _ l o s₁ c₁ (λ n m. (refl, c₁))),
          for_admin-IsGuarded _ s clean (λ s₁ c₁.
              bind-Reads (get_account_or_404 account_id)
                (λ account. with_page (transactions_of newest_first account.id) l o) s₁
                (get_account_or_404-Reads account_id s₁ c₁)
                (λ account s₂ c₂.
                  with_page-Reads (transactions_of newest_first account.id) l o s₂ c₂
                    (λ n m. unfold transactions_of in (refl, c₂)))),
        )
