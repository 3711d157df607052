-- ===== src/Store/Session/Reading.antt =====
-- Queries: they write nothing and keep the session clean.
use banking_payments_api.Prelude.{
  ℕ, ◌≡◌, refl, ◌∙◌, Bool, Option, none, some, List, [], ◌∷◌, inl, inr, Option-cases,
}
use banking_payments_api.Prelude.Lists.{select}
use banking_payments_api.Store.Tables.{find}
use banking_payments_api.Store.Models.{Account, account_id}
use banking_payments_api.Store.Errors.{Outcome, ok, raise}
use banking_payments_api.Store.Session.{
  Session, Action, scalar_one_or_none, load_row, select_account, select_one_account, ◌>>=◌,
  >>=-of_ok, >>=-of_raise, Action-cases,
}
use banking_payments_api.Store.Session.Loading.{IsClean, select_missing, select-Loaded}

abbrev pub Reads : {A : Type 0} → Session → Outcome A × Session → Type 0
Reads s (_, s') = (s'.store ≡ s.store) × IsClean s'

pub bind-Reads :
    {A B : Type 0} (m : Action A) (f : A → Action B) (s : Session)
    → Reads s (m s)
    → ((a : A) (s' : Session) → IsClean s' → Reads s' (f a s'))
    → Reads s ((m >>= f) s)
bind-Reads {A} m f s reads rest = elim (Action-cases m s) [
  | inl (a, s', e) ↦
      let (same, clean) : Reads s (ok a, s') = rw e at reads in
      let (same', clean') = rest a s' clean in rw (>>=-of_ok m f e) (same' ∙ same, clean')
  | inr (x, s', e) ↦
      let p : Reads {A = A} s (raise x, s') = rw e at reads in rw (>>=-of_raise m f e) p
]

pub select_account-Reads : (k : ℕ) (s : Session) → IsClean s → Reads s (select_account k s)
select_account-Reads k s clean = elim (Option-cases (find k s.store.accounts)) [
  | inl absent ↦ rw (select_missing k s absent) (refl, clean)
  | inr (row, found) ↦
      let (a, im, l) = select-Loaded k s row found in
      rw l.selected
        (refl, record { current = l.still_current clean.current; flushed = clean.flushed })
]

pub load_row-Reads : (o : Option Account) (s : Session) → IsClean s → Reads s (load_row o s)
load_row-Reads none s clean = (refl, clean)
load_row-Reads (some row) s clean = select_account-Reads row.id s clean

pub scalar_one_or_none-Reads :
    {A : Type 0} (xs : List A) (s : Session) → IsClean s → Reads s (scalar_one_or_none xs s)
scalar_one_or_none-Reads [] s clean = (refl, clean)
scalar_one_or_none-Reads (x ∷ []) s clean = (refl, clean)
scalar_one_or_none-Reads (x ∷ y ∷ xs) s clean = (refl, clean)

pub select_one_account-Reads :
    (test : Account → Bool) (s : Session) → IsClean s → Reads s (select_one_account test s)
unfolding select_one_account
select_one_account-Reads test s clean =
    bind-Reads (scalar_one_or_none (select test s.store.accounts)) load_row s
      (scalar_one_or_none-Reads (select test s.store.accounts) s clean) load_row-Reads
