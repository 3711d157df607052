-- ===== src/Ledger/Moves.antt =====
-- How an action that ends in a commit moves the funds, and the session that it leaves.
use banking_payments_api.Prelude.{
  ℕ, ◌≡◌, refl, sym, ap, ◌∙◌, Option, some, List, [], ◌∷◌, inl, inr, arith,
}
use banking_payments_api.Prelude.Int.{
  ℤ, pos, +ℤ_zero, pos_part, neg_part, ◌+ℤ◌, ◌≤ℤ◌, +ℤ_settle, int_laws,
}
use banking_payments_api.Store.Tables.{find, update}
use banking_payments_api.Store.Models.{
  Database, Account, Transaction, TransactionStatus, account_id,
}
use banking_payments_api.Store.Errors.{Exc, Outcome, ok, raise, Outcome-cases}
use banking_payments_api.Store.Schema.{
  Change, insert_transaction, set_status, set_balance, with_balance, apply, flush,
}
use banking_payments_api.Store.Session.{Session, pure, commit, ◌>>◌}
use banking_payments_api.Store.Session.Loading.{
  AreCurrent, IsCurrent, IsClean, Loaded, Loaded-balance, update-AreCurrent,
}
use banking_payments_api.Ledger.{funds}
use banking_payments_api.Book.View.{entry_in}
use banking_payments_api.Ledger.Sound.{IsSound, set_balance-IsSound}
use banking_payments_api.Ledger.Flow.{
  flush-cons, funds-set_balance, apply-set_balance, apply-set_status, apply-insert_transaction,
}

-- What a movement of money leaves alone.
pub record SameRecords (db db' : Database) : Type 0 where
  pub users : db'.users ≡ db.users
  pub refresh_tokens : db'.refresh_tokens ≡ db.refresh_tokens
  pub idempotency_keys : db'.idempotency_keys ≡ db.idempotency_keys
  pub webhook_events : db'.webhook_events ≡ db.webhook_events

-- What a change of the keys or of the events leaves alone: the accounts, and what the book says of
-- the transactions.
pub record SameAccounts (db db' : Database) : Type 0 where
  pub accounts : db'.accounts ≡ db.accounts
  pub entries : entry_in db'.transactions ≡ entry_in db.transactions

pub SameAccounts-refl : (db : Database) → SameAccounts db db
SameAccounts-refl db = record { accounts = refl; entries = refl }

-- A relation between the committed rows before and after.
abbrev pub Frame : Type 1
Frame = Database → Database → Type 0

-- The funds have moved by `x`, the invariant is kept, the rows are as `R` says, and the session is
-- between two transactions.
pub record Moved (R : Frame) (db : Database) (x : ℤ) (s' : Session) : Type 0 where
  pub funds : funds s'.store ≡ funds db +ℤ x
  pub sound : IsSound db → IsSound s'.store
  pub frame : R db s'.store
  pub clean : IsClean s'

-- An action that raises has written nothing.
abbrev pub Moves : {A : Type 0} → Frame → Database → ℤ → Outcome A × Session → Type 0
Moves R db x (ok _, s') = Moved R db x s'
Moves R db x (raise _, s') = s'.store ≡ db

-- What a flush has done to the rows.
pub record Flushed (R : Frame) (x : ℤ) (db db' : Database) : Type 0 where
  pub funds : funds db' ≡ funds db +ℤ x
  pub sound : IsSound db → IsSound db'
  pub frame : R db db'

module _ {A : Type 0} (a : A) (s : Session) where
  pub commit_flushed :
      {db : Database}
      → flush s.now s.unflushed s.store ≡ ok db
      → (commit >> pure a) s ≡ (ok a, record s { store = db; unflushed = [] })
  unfolding commit
  commit_flushed e = ground arith

  pub commit_failed :
      {x : Exc} → flush s.now s.unflushed s.store ≡ raise x → (commit >> pure a) s ≡ (raise x, s)
  unfolding commit
  commit_failed e = ground arith

  pub commit-Moves :
      (R : Frame) (x : ℤ)
      → ((db' : Database)
          → flush s.now s.unflushed s.store ≡ ok db'
          → Flushed R x s.store db' × AreCurrent s.identity_map db'.accounts)
      → Moves R s.store x ((commit >> pure a) s)
  commit-Moves R x flow = elim (Outcome-cases (flush s.now s.unflushed s.store)) [
    | inl (db', flushed) ↦
        let (f, current) = flow db' flushed in
        rw (commit_flushed flushed) (record {
          funds = f.funds;
          sound = f.sound;
          frame = f.frame;
          clean = record { current = current; flushed = refl };
        })
    | inr (e, failed) ↦ rw (commit_failed failed)
  ]

-- What the changes behind a new balance do: they move the funds by `h` and touch no account.
abbrev pub Adds : ℕ → List Change → ℤ → Database → Database → Type 0
Adds now cs h db mid =
    (db' : Database)
    → flush now cs mid ≡ ok db'
    → (funds db' ≡ funds mid +ℤ h)
      × (db'.accounts ≡ mid.accounts)
      × SameRecords mid db'
      × (IsSound db → IsSound mid → IsSound db')

pub Moved-refl : (s : Session) → IsClean s → Moved SameRecords s.store (pos 0) s
Moved-refl s clean = record {
  funds = sym (+ℤ_zero (funds s.store));
  sound = λ h. h;
  frame = record {
    users = refl;
    refresh_tokens = refl;
    idempotency_keys = refl;
    webhook_events = refl;
  };
  clean = clean;
}

-- Behind a flush of one insertion or of one status.
pub SameRecords-insert :
    (now : ℕ) (t : Transaction) (db db' : Database)
    → apply now (insert_transaction t) db ≡ ok db'
    → SameRecords db db'
SameRecords-insert now t db db' e =
    rw (apply-insert_transaction now db t e) (record {
      users = refl;
      refresh_tokens = refl;
      idempotency_keys = refl;
      webhook_events = refl;
    })

pub SameRecords-status :
    (now k : ℕ) (st : TransactionStatus) (d : Option (List ℕ)) (db db' : Database)
    → apply now (set_status k st d) db ≡ ok db'
    → SameRecords db db'
SameRecords-status now k st d db db' e =
    rw (apply-set_status now db k st d e) (record {
      users = refl;
      refresh_tokens = refl;
      idempotency_keys = refl;
      webhook_events = refl;
    })

pub SameRecords-trans : (a b c : Database) → SameRecords a b → SameRecords b c → SameRecords a c
SameRecords-trans a b c p q = record {
  users = q.users ∙ p.users;
  refresh_tokens = q.refresh_tokens ∙ p.refresh_tokens;
  idempotency_keys = q.idempotency_keys ∙ p.idempotency_keys;
  webhook_events = q.webhook_events ∙ p.webhook_events;
}

SameRecords-after_balance :
    (now k : ℕ) (b : ℤ) (db mid db' : Database)
    → apply now (set_balance k b) db ≡ ok mid
    → SameRecords mid db'
    → SameRecords db db'
SameRecords-after_balance now k b db mid db' e r =
    SameRecords-trans db mid db'
      (rw (apply-set_balance now db k b e) (record {
        users = refl;
        refresh_tokens = refl;
        idempotency_keys = refl;
        webhook_events = refl;
      }))
      r

module _ {A : Type 0} (t : A) (k : ℕ) (s : Session) (row a : Account) (im : List Account) where
  -- A loaded account gets a new balance, and other changes follow in the same flush.
  pub staged-Moves :
      (b h y : ℤ) (cs : List Change)
      → IsCurrent s
      → Loaded k s row a im
      → b +ℤ h ≡ a.balance +ℤ y
      → (IsSound s.store → pos 0 ≤ℤ b)
      → ((mid : Database)
          → apply s.now (set_balance a.id b) s.store ≡ ok mid
          → Adds s.now cs h s.store mid)
      → Moves SameRecords s.store y (
          (commit >> pure t) (record s {
            identity_map = update a.id (λ r. record r { balance = b }) im;
            unflushed = set_balance a.id b ∷ cs;
          }))
  staged-Moves b h y cs current l moved nonneg rest = commit-Moves t _ SameRecords y flow
    where
      found : find a.id s.store.accounts ≡ some row
      found = rw l.id l.found

      flow :
          (db' : Database)
          → flush s.now (set_balance a.id b ∷ cs) s.store ≡ ok db'
          → Flushed SameRecords y s.store db'
            × AreCurrent (update a.id (λ r. record r { balance = b }) im) db'.accounts
      flow db' flushed =
          let (mid, first, others) = flush-cons s.now (set_balance a.id b) cs s.store flushed in
          let (q, same, records, sound) = rest mid first db' others in
          let p = funds-set_balance s.now s.store a.id b row found first in
          let written = apply-set_balance s.now s.store a.id b first in
          (
            record {
              funds =
                  +ℤ_settle (funds db') row.balance (funds s.store) b h y
                    (omega (int_laws, ap pos_part p, ap neg_part p, ap pos_part q, ap neg_part q))
                    (rw (← Loaded-balance k s row a im current l) moved);
              sound = λ h. sound h (set_balance-IsSound s.now s.store a.id b first (nonneg h) h);
              frame = SameRecords-after_balance s.now a.id b s.store mid db' first records;
            },
            rw (same, written)
                (update-AreCurrent b (λ r. record r { balance = b }) (with_balance s.now b) a.id im
                  s.store.accounts row (λ x. refl) (λ x. refl) (λ x. refl) (λ x. refl) found
                  (l.still_current current)),
          )
