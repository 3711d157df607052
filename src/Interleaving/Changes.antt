-- ===== src/Interleaving/Changes.antt =====
-- What is watched of the committed rows while requests run at the same time, and what a flush of
-- changes does to it.
use mathlib.Core.Path.{subst}
use banking_payments_api.Prelude.{
  ℕ, ◌≡◌, ◌∙◌, refl, sym, ap, Option, none, some, List, [], ◌∷◌, arith,
}
use banking_payments_api.Prelude.Int.{ℤ, pos, ◌≤ℤ◌}
use banking_payments_api.Prelude.Lists.{All, select}
use banking_payments_api.Store.Models.{Database, Account, account_id}
use banking_payments_api.Store.Errors.{Exc, ok}
use banking_payments_api.Store.Schema.{
  Change, insert_transaction, insert_key, insert_event, insert_user, insert_account,
  insert_refresh_token, set_revoked, set_balance, set_status, set_response, set_processed,
  set_error, delete_keys_before, delete_events_before, unless, if_found, apply, flush, is_live,
}
use banking_payments_api.Book.View.{entry_in}
use banking_payments_api.Cleanup.Expiry.{entry_in-detach}
use banking_payments_api.Interleaving.Final.{Final, Final-trans, same-Final, insert-Final}
use banking_payments_api.Ledger.Flow.{apply-set_balance, flush-cons}
use banking_payments_api.Ledger.Sound.{
  IsSolvent, IsPositive, IsSound, set_balance-IsSound, insert_transaction-IsSound,
  set_status-IsSound, All-detach,
}

-- What is watched of the committed rows: the invariant of the money, or what has become of the
-- transactions of a database.
pub data Watch : Type 0 where
  money : Watch
  entries : Database → Watch

abbrev pub Watched : Watch → Database → Type 0
Watched money db = IsSound db
Watched (entries base) db = Final base db

-- what is known of loaded accounts and of accounts to insert
abbrev pub IsSafeAccount : Watch → Account → Type 0
IsSafeAccount money a = IsSolvent a
IsSafeAccount (entries base) a = Unit

abbrev pub IsSafeBalance : Watch → ℤ → Type 0
IsSafeBalance money b = pos 0 ≤ℤ b
IsSafeBalance (entries base) b = Unit

-- An assigned status keeps what has become of the transactions where the old one was pending, which
-- the change alone does not show.
abbrev pub IsSafeStatus : Watch → Type 0
IsSafeStatus money = Unit
IsSafeStatus (entries base) = ⊥

-- a change that keeps what is watched, over any rows
abbrev pub IsSafeChange : Watch → Change → Type 0
IsSafeChange w (insert_transaction t) = IsPositive t
IsSafeChange w (insert_account a) = IsSafeAccount w a
IsSafeChange w (set_balance k b) = IsSafeBalance w b
IsSafeChange w (set_status k st d) = IsSafeStatus w
IsSafeChange w (insert_key k) = Unit
IsSafeChange w (insert_event e) = Unit
IsSafeChange w (insert_user u) = Unit
IsSafeChange w (insert_refresh_token t) = Unit
IsSafeChange w (set_revoked k) = Unit
IsSafeChange w (set_response k code body) = Unit
IsSafeChange w (set_processed k) = Unit
IsSafeChange w (set_error k message) = Unit
IsSafeChange w (delete_keys_before time) = Unit
IsSafeChange w (delete_events_before cutoff) = Unit

ok-eq : {A : Type 0} {a b : A} → ok a ≡ ok b → a ≡ b
ok-eq e = cc

unless-ok : {A : Type 0} (o : Option Exc) {a b : A} → unless o a ≡ ok b → a ≡ b
unless-ok none e = ground arith
unless-ok (some x) e = cc

if_found-ok : {A B : Type 0} (o : Option A) {x y : B} → if_found o (ok x) ≡ ok y → x ≡ y
if_found-ok none e = cc
if_found-ok (some a) e = ground arith

-- The rows behind a change that touches neither accounts nor transactions.
same_money :
    {db db' mid : Database}
    → mid ≡ db'
    → mid.accounts ≡ db.accounts
    → mid.transactions ≡ db.transactions
    → IsSound db
    → IsSound db'
same_money {db} {db'} {mid} e accounts transactions h = subst IsSound e (record {
  solvent = subst (All IsSolvent) (sym accounts) h.solvent;
  positive = subst (All IsPositive) (sym transactions) h.positive;
})

apply-IsSound :
    (now : ℕ) (c : Change) (db db' : Database)
    → IsSafeChange money c
    → apply now c db ≡ ok db'
    → IsSound db
    → IsSound db'
unfolding apply
apply-IsSound now (insert_transaction t) db db' p e h = insert_transaction-IsSound now db t e p h
apply-IsSound now (set_balance k b) db db' p e h = set_balance-IsSound now db k b e p h
apply-IsSound now (set_status k st d) db db' p e h = set_status-IsSound now db k st d e h
apply-IsSound now (insert_account a) db db' p e h =
    subst IsSound (unless-ok _ e) (record { solvent = (p, h.solvent); positive = h.positive })
apply-IsSound now (insert_key k) db db' p e h = same_money (unless-ok _ e) refl refl h
apply-IsSound now (insert_event v) db db' p e h = same_money (unless-ok _ e) refl refl h
apply-IsSound now (insert_user u) db db' p e h = same_money (unless-ok _ e) refl refl h
apply-IsSound now (insert_refresh_token t) db db' p e h = same_money (unless-ok _ e) refl refl h
apply-IsSound now (set_revoked k) db db' p e h = same_money (if_found-ok _ e) refl refl h
apply-IsSound now (set_response k code body) db db' p e h = same_money (if_found-ok _ e) refl refl h
apply-IsSound now (set_processed k) db db' p e h = same_money (if_found-ok _ e) refl refl h
apply-IsSound now (set_error k message) db db' p e h = same_money (if_found-ok _ e) refl refl h
apply-IsSound now (delete_keys_before time) db db' p e h = subst IsSound (ok-eq e) (record {
  solvent = h.solvent;
  positive = All-detach (select (is_live time) db.idempotency_keys) db.transactions h.positive;
})
apply-IsSound now (delete_events_before cutoff) db db' p e h = same_money (ok-eq e) refl refl h

same_entries :
    (db : Database) {db' mid : Database}
    → mid ≡ db'
    → entry_in mid.transactions ≡ entry_in db.transactions
    → Final db db'
same_entries db {db'} {mid} e same =
    same-Final db db' (ap (λ (x : Database). entry_in x.transactions) (sym e) ∙ same)

-- the same for what has become of the transactions
pub apply-Final :
    (now : ℕ) (base : Database) (c : Change) (db db' : Database)
    → IsSafeChange (entries base) c
    → apply now c db ≡ ok db'
    → Final db db'
unfolding apply
apply-Final now base (insert_transaction t) db db' p e = insert-Final now t db db' e
apply-Final now base (set_balance k b) db db' p e =
    same-Final db db'
      (ap (λ (x : Database). entry_in x.transactions) (apply-set_balance now db k b e))
apply-Final now base (set_status k st d) db db' p e = absurd p
apply-Final now base (insert_account a) db db' p e = same_entries db (unless-ok _ e) refl
apply-Final now base (insert_key k) db db' p e = same_entries db (unless-ok _ e) refl
apply-Final now base (insert_event v) db db' p e = same_entries db (unless-ok _ e) refl
apply-Final now base (insert_user u) db db' p e = same_entries db (unless-ok _ e) refl
apply-Final now base (insert_refresh_token t) db db' p e = same_entries db (unless-ok _ e) refl
apply-Final now base (set_revoked k) db db' p e = same_entries db (if_found-ok _ e) refl
apply-Final now base (set_response k code body) db db' p e = same_entries db (if_found-ok _ e) refl
apply-Final now base (set_processed k) db db' p e = same_entries db (if_found-ok _ e) refl
apply-Final now base (set_error k message) db db' p e = same_entries db (if_found-ok _ e) refl
apply-Final now base (delete_keys_before time) db db' p e =
    same_entries db (ok-eq e)
      (entry_in-detach (select (is_live time) db.idempotency_keys) db.transactions)
apply-Final now base (delete_events_before cutoff) db db' p e = same_entries db (ok-eq e) refl

apply-Watched :
    (now : ℕ) (w : Watch) (c : Change) (db db' : Database)
    → IsSafeChange w c
    → apply now c db ≡ ok db'
    → Watched w db
    → Watched w db'
apply-Watched now money c db db' p e h = apply-IsSound now c db db' p e h
apply-Watched now (entries base) c db db' p e h =
    Final-trans base db db' h (apply-Final now base c db db' p e)

pub flush-Watched :
    (now : ℕ) (w : Watch) (cs : List Change) (db db' : Database)
    → All (IsSafeChange w) cs
    → flush now cs db ≡ ok db'
    → Watched w db
    → Watched w db'
unfolding flush
flush-Watched now w [] db db' all e h = subst (Watched w) (ok-eq e) h
flush-Watched now w (c ∷ cs) db db' all e h =
    let (mid, first, rest) = flush-cons now c cs db e in
    flush-Watched now w cs mid db' all.1 rest (apply-Watched now w c db mid all.0 first h)
