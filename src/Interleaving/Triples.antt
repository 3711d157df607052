-- ===== src/Interleaving/Triples.antt =====
-- What an action does to what is watched, in a session that may have loaded old balances: rules that
-- follow the code.
use banking_payments_api.Prelude.{
  ℕ, Bool, Option, none, some, List, [], ◌∷◌, ◌++◌, inl, inr, Option-cases,
}
use banking_payments_api.Prelude.Int.{ℤ}
use banking_payments_api.Prelude.Lists.{All, select}
use banking_payments_api.Store.Tables.{find, All-find, All-update}
use banking_payments_api.Store.Models.{Database, Account, account_id}
use banking_payments_api.Store.Errors.{
  Exc, integrity_error, data_error, stale_data, no_result_found, multiple_results,
  transaction_not_found, transaction_already_processed, amount_mismatch, type_error,
  validation_error, lookup_error, http_exception, Outcome, ok, raise, Outcome-cases,
}
use banking_payments_api.Store.Schema.{Change, set_balance, flush}
use banking_payments_api.Store.Session.{
  Session, Action, pure, throw, gets, scalar_one, scalar_one_or_none, load_row, register, commit,
  rollback, remember, select_account, select_one_account, assign_balance, ◌>>=◌, ◌>>◌, >>=-of_ok,
  >>=-of_raise, Action-cases,
}
use banking_payments_api.Idempotency.{or_none}
use banking_payments_api.Interleaving.Changes.{
  Watch, money, entries, Watched, IsSafeAccount, IsSafeBalance, IsSafeChange, flush-Watched,
}
use banking_payments_api.Interleaving.Rule.{After}

-- The loaded accounts are safe, their balances old or not, and what waits for the flush keeps what is
-- watched.
pub record Fit (w : Watch) (s : Session) : Type 0 where
  pub loaded : All (IsSafeAccount w) s.identity_map
  pub staged : All (IsSafeChange w) s.unflushed

-- The action keeps what is watched; where it returns, the session is fit for more and the result is as
-- `Q` says.
pub record Sound {A : Type 0} (w : Watch) (Q : A → Type 0) (m : Action A) : Type 0 where
  pub keeps :
      (s : Session) → Watched w s.store → Fit w s → After (Watched w) (λ a s'. Fit w s' × Q a) (m s)

abbrev pub Anything : {A : Type 0} → A → Type 0
Anything a = Unit

abbrev pub IfAny : {A : Type 0} → (A → Type 0) → Option A → Type 0
IfAny Q none = Unit
IfAny Q (some a) = Q a

All-snoc :
    (w : Watch) (cs : List Change) (c : Change)
    → All (IsSafeChange w) cs
    → IsSafeChange w c
    → All (IsSafeChange w) (cs ++ c ∷ [])
All-snoc w [] c all p = (p, tt)
All-snoc w (d ∷ cs) c all p = (all.0, All-snoc w cs c all.1 p)

-- What is watched makes the rows safe to load, and a safe balance makes a safe account.
any_rows_safe : (base : Database) (rows : List Account) → All (IsSafeAccount (entries base)) rows
any_rows_safe base [] = tt
any_rows_safe base (a ∷ rows) = (tt, any_rows_safe base rows)

rows-Safe : (w : Watch) (db : Database) → Watched w db → All (IsSafeAccount w) db.accounts
rows-Safe money db h = h.solvent
rows-Safe (entries base) db h = any_rows_safe base db.accounts

balance-Safe : (w : Watch) (a : Account) → IsSafeBalance w a.balance → IsSafeAccount w a
balance-Safe money a p = p
balance-Safe (entries base) a p = tt

module _ {w : Watch} where
  module _ {A : Type 0} {Q : A → Type 0} where
    pub weaken : {R : A → Type 0} {m : Action A} → ((a : A) → Q a → R a) → Sound w Q m → Sound w R m
    weaken {R} {m} implies first = record {
      keeps = λ s h fit. elim (Action-cases m s) [
        | inl (a, s', e) ↦
            let after : After (Watched w) (λ a' s''. Fit w s'' × Q a') (ok a, s') =
              rw e at (first.keeps s h fit) in
            let (h', (fit', q)) = after in rw e (h', (fit', implies a q))
        | inr (x, s', e) ↦
            let after : After (Watched w) {B = A} (λ a' s''. Fit w s'' × Q a') (raise x, s') =
              rw e at (first.keeps s h fit) in
            rw e after
      ];
    }

    pub bind-Sound :
        {B : Type 0} {R : B → Type 0} {m : Action A} {f : A → Action B}
        → Sound w Q m
        → ((a : A) → Q a → Sound w R (f a))
        → Sound w R (m >>= f)
    bind-Sound {m = m} {f = f} first rest = record {
      keeps = λ s h fit. elim (Action-cases m s) [
        | inl (a, s', e) ↦
            let after : After (Watched w) (λ a' s''. Fit w s'' × Q a') (ok a, s') =
              rw e at (first.keeps s h fit) in
            let (h', (fit', q)) = after in rw (>>=-of_ok m f e) ((rest a q).keeps s' h' fit')
        | inr (x, s', e) ↦
            let after : After (Watched w) {B = A} (λ a' s''. Fit w s'' × Q a') (raise x, s') =
              rw e at (first.keeps s h fit) in
            rw (>>=-of_raise m f e) after
      ];
    }

    pub pure-Sound : (a : A) → Q a → Sound w Q (pure a)
    pure-Sound a q = record { keeps = λ s h fit. (h, (fit, q)) }

    pub throw-Sound : (x : Exc) → Sound w Q (throw x)
    throw-Sound x = record { keeps = λ s h fit. h }

    pub scalar_one-Sound : (o : Option A) → IfAny Q o → Sound w Q (scalar_one o)
    scalar_one-Sound none q = throw-Sound no_result_found
    scalar_one-Sound (some a) q = pure-Sound a q

  module _ {A B : Type 0} {R : B → Type 0} {m : Action A} where
    -- an action with a result of which nothing is known, and one whose result is not used
    pub any-Sound :
        {f : A → Action B} → Sound w Anything m → ((a : A) → Sound w R (f a)) → Sound w R (m >>= f)
    any-Sound first rest = bind-Sound first (λ a _. rest a)

    pub then-Sound : {k : Action B} → Sound w Anything m → Sound w R k → Sound w R (m >> k)
    then-Sound first rest = bind-Sound first (λ _ _. rest)

  -- a query that the condition does not depend on
  pub gets-Sound : {A : Type 0} (f : Session → A) → Sound w Anything (gets f)
  gets-Sound f = record { keeps = λ s h fit. (h, (fit, tt)) }

  pub scalar_one_or_none-Sound :
      {A : Type 0} (xs : List A) → Sound w Anything (scalar_one_or_none xs)
  scalar_one_or_none-Sound [] = pure-Sound none tt
  scalar_one_or_none-Sound (x ∷ []) = pure-Sound (some x) tt
  scalar_one_or_none-Sound (x ∷ y ∷ xs) = throw-Sound multiple_results

  pub register-Sound : (c : Change) → IsSafeChange w c → Sound w Anything (register c)
  register-Sound c p = record {
    keeps = λ s h fit.
        (h, (record { loaded = fit.loaded; staged = All-snoc w s.unflushed c fit.staged p }, tt));
  }

  pub commit-Sound : Sound w Anything commit
  unfolding commit
  commit-Sound = record {
    keeps = λ s h fit. elim (Outcome-cases (flush s.now s.unflushed s.store)) [
      | inl (db', e) ↦
          rw (e, commit)
            (
              flush-Watched s.now w s.unflushed s.store db' fit.staged e h,
              (record { loaded = fit.loaded; staged = tt }, tt),
            )
      | inr (x, e) ↦ rw (e, commit) h
    ];
  }

  -- `except IntegrityError`, after a commit
  pub or_none-Sound : {A : Type 0} (entry : A) → Sound w Anything (λ s. or_none entry (commit s))
  unfolding or_none rollback
  or_none-Sound {A} entry = record {
    keeps = λ s h fit. caught (commit s) (commit-Sound.keeps s h fit);
  }
    where
      caught :
          (r : Outcome (Unit {0}) × Session)
          → After (Watched w) (λ a s'. Fit w s' × Anything a) r
          → After (Watched w) (λ a s'. Fit w s' × Anything a) (or_none entry r)
      caught (ok _, s') after = after
      caught (raise integrity_error, s') after = (after, (record { loaded = tt; staged = tt }, tt))
      caught (raise data_error, s') after = after
      caught (raise stale_data, s') after = after
      caught (raise no_result_found, s') after = after
      caught (raise multiple_results, s') after = after
      caught (raise (transaction_not_found k), s') after = after
      caught (raise (transaction_already_processed k), s') after = after
      caught (raise (amount_mismatch x y), s') after = after
      caught (raise type_error, s') after = after
      caught (raise validation_error, s') after = after
      caught (raise lookup_error, s') after = after
      caught (raise (http_exception code detail), s') after = after

  pub assign_balance-Sound :
      (a : Account) (b : ℤ) → IsSafeBalance w b → Sound w Anything (assign_balance a b)
  unfolding assign_balance
  assign_balance-Sound a b p = record {
    keeps = λ s h fit. (
      h,
      (
        record {
          loaded =
              All-update (IsSafeAccount w) a.id _ s.identity_map fit.loaded
                (λ x f. balance-Safe w _ p);
          staged = All-snoc w s.unflushed (set_balance a.id b) fit.staged p;
        },
        tt,
      ),
    );
  }

  pub select_account-Sound : (k : ℕ) → Sound w (IfAny (IsSafeAccount w)) (select_account k)
  unfolding select_account
  select_account-Sound k = record {
    keeps = λ s h fit. elim (Option-cases (find k s.store.accounts)) [
      | inl absent ↦ rw absent (h, (fit, tt))
      | inr (row, found) ↦
          let solvent =
            All-find (IsSafeAccount w) k row s.store.accounts (rows-Safe w s.store h) found in
          elim (Option-cases (find row.id s.identity_map)) [
            | inl fresh ↦
                rw (found, fresh, remember)
                  (h, (record { loaded = (solvent, fit.loaded); staged = fit.staged }, solvent))
            | inr (l, old) ↦
                rw (found, old, remember)
                  (h, (fit, All-find (IsSafeAccount w) row.id l s.identity_map fit.loaded old))
          ]
    ];
  }

  -- the object of a query for one account
  pub one-Sound : (k : ℕ) → Sound w (IsSafeAccount w) (select_account k >>= scalar_one)
  one-Sound k = bind-Sound (select_account-Sound k) (scalar_one-Sound)

  load_row-Sound : (o : Option Account) → Sound w (IfAny (IsSafeAccount w)) (load_row o)
  load_row-Sound none = pure-Sound none tt
  load_row-Sound (some row) = select_account-Sound row.id

  pub select_one_account-Sound :
      (test : Account → Bool) → Sound w (IfAny (IsSafeAccount w)) (select_one_account test)
  unfolding select_one_account
  select_one_account-Sound test =
      any-Sound (gets-Sound (λ s. select test s.store.accounts))
        (λ rows. any-Sound (scalar_one_or_none-Sound rows) load_row-Sound)
