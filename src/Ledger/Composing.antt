-- ===== src/Ledger/Composing.antt =====
-- Actions one after the other: what they do together to the funds and to the invariant.
use mathlib.Core.Path.{subst}
use banking_payments_api.Prelude.{◌≡◌, refl, sym, ap, ◌∙◌, inl, inr}
use banking_payments_api.Prelude.Int.{ℤ, pos, +ℤ_zero}
use banking_payments_api.Store.Models.{Database, account_id}
use banking_payments_api.Store.Errors.{Outcome, ok, raise}
use banking_payments_api.Store.Session.{
  Session, Action, pure, ◌>>=◌, >>=-of_ok, >>=-of_raise, Action-cases,
}
use banking_payments_api.Store.Session.Loading.{IsClean}
use banking_payments_api.Store.Session.Reading.{Reads}
use banking_payments_api.Ledger.{funds}
use banking_payments_api.Ledger.Sound.{IsSound}
use banking_payments_api.Ledger.Moves.{Moves, Moved, Frame, SameAccounts}

-- The rows after an action, however it ends, stand to the rows before as `G` says.
abbrev pub Keeps : {A : Type 0} → Frame → Database → Outcome A × Session → Type 0
Keeps G db (_, s') = G db s'.store

-- A relation that holds over any number of transactions, and over those that touch no account and
-- leave the book as it is.
pub record Closed (G : Frame) : Type 0 where
  pub idle : (db : Database) → G db db
  pub after : {a b c : Database} → G a b → G b c → G a c
  pub kept : {db : Database} {s' : Session} → Moved SameAccounts db (pos 0) s' → G db s'.store

-- The funds stay, and so does the invariant.
abbrev pub Safe : Frame
Safe db db' = (funds db' ≡ funds db) × (IsSound db → IsSound db')

pub Safe-Closed : Closed Safe
Safe-Closed = record {
  idle = λ db. (refl, λ h. h);
  after = λ (e, sound) (e', sound'). (e' ∙ e, λ h. sound' (sound h));
  kept = λ {db} moved. (moved.funds ∙ +ℤ_zero (funds db), moved.sound);
}

-- An action that keeps the funds and the invariant, also where it raises.
abbrev pub IsSafe : {A : Type 0} → Database → Outcome A × Session → Type 0
IsSafe db r = Keeps Safe db r

pub Moves-IsSafe :
    {A : Type 0} (R : Frame) (m : Action A) (s : Session)
    → Moves R s.store (pos 0) (m s)
    → IsSafe s.store (m s)
Moves-IsSafe R m s moves = elim (Action-cases m s) [
  | inl (a, s', e) ↦
      let moved : Moved R s.store (pos 0) s' = rw e at moves in
      rw e (moved.funds ∙ +ℤ_zero (funds s.store), moved.sound)
  | inr (x, s', e) ↦
      let same : s'.store ≡ s.store = rw e at moves in
      rw e (ap funds same, λ h. subst IsSound (sym same) h)
]

-- What only reads, followed by what moves money, moves that money.
pub Reads-Moves :
    {A B : Type 0} (R : Frame) (x : ℤ) (m : Action A) (f : A → Action B) (s : Session)
    → Reads s (m s)
    → ((a : A) (s' : Session) → IsClean s' → Moves R s'.store x (f a s'))
    → Moves R s.store x ((m >>= f) s)
Reads-Moves {A} R x m f s reads rest = elim (Action-cases m s) [
  | inl (a, s', e) ↦
      let (same, clean) : Reads s (ok a, s') = rw e at reads in
      rw (>>=-of_ok m f e) (subst (λ db. Moves R db x (f a s')) same (rest a s' clean))
  | inr (q, s', e) ↦
      let (same, clean) : Reads {A = A} s (raise q, s') = rw e at reads in
      rw (>>=-of_raise m f e) same
]

-- A result computed from what a movement returns.
pub Moves-map :
    {A B : Type 0} (R : Frame) (x : ℤ) (m : Action A) (f : A → B) (s : Session) (db : Database)
    → Moves R db x (m s)
    → Moves R db x ((m >>= λ a. pure (f a)) s)
Moves-map R x m f s db moves = elim (Action-cases m s) [
  | inl (a, s', e) ↦ rw (>>=-of_ok m (λ a'. pure (f a')) e) (rw e at moves)
  | inr (q, s', e) ↦ rw (>>=-of_raise m (λ a'. pure (f a')) e) (rw e at moves)
]

-- a result computed from what an action returns
pub map-Keeps :
    {A B : Type 0} (G : Frame) (m : Action A) (f : A → B) (s : Session)
    → Keeps G s.store (m s)
    → Keeps G s.store ((m >>= λ a. pure (f a)) s)
map-Keeps G m f s keeps = elim (Action-cases m s) [
  | inl (a, s', e) ↦ rw (>>=-of_ok m (λ a'. pure (f a')) e) (rw e at keeps)
  | inr (q, s', e) ↦ rw (>>=-of_raise m (λ a'. pure (f a')) e) (rw e at keeps)
]

module _ (G : Frame) (closed : Closed G) where
  -- what touches no account
  pub Moves-Keeps :
      {A : Type 0} (m : Action A) (s : Session)
      → Moves SameAccounts s.store (pos 0) (m s)
      → Keeps G s.store (m s)
  Moves-Keeps m s moves = elim (Action-cases m s) [
    | inl (a, s', e) ↦
        let moved : Moved SameAccounts s.store (pos 0) s' = rw e at moves in
        rw e (closed.kept moved)
    | inr (x, s', e) ↦
        let same : s'.store ≡ s.store = rw e at moves in
        rw e (subst (λ db. G s.store db) (sym same) (closed.idle s.store))
  ]

  -- what ends between two transactions, and what follows it
  pub bind-Keeps :
      {A B : Type 0} (R : Frame) (m : Action A) (f : A → Action B) (s : Session)
      → Moves R s.store (pos 0) (m s)
      → Keeps G s.store (m s)
      → ((a : A) (s' : Session) → IsClean s' → Keeps G s'.store (f a s'))
      → Keeps G s.store ((m >>= f) s)
  bind-Keeps R m f s moves first rest = elim (Action-cases m s) [
    | inl (a, s', e) ↦
        let moved : Moved R s.store (pos 0) s' = rw e at moves in
        let before : G s.store s'.store = rw e at first in
        rw (>>=-of_ok m f e) (closed.after before (rest a s' moved.clean))
    | inr (x, s', e) ↦
        let before : G s.store s'.store = rw e at first in rw (>>=-of_raise m f e) before
  ]

  pub kept-Keeps :
      {A B : Type 0} (m : Action A) (f : A → Action B) (s : Session)
      → Moves SameAccounts s.store (pos 0) (m s)
      → ((a : A) (s' : Session) → IsClean s' → Keeps G s'.store (f a s'))
      → Keeps G s.store ((m >>= f) s)
  kept-Keeps m f s moves rest = bind-Keeps SameAccounts m f s moves (Moves-Keeps m s moves) rest

  -- what only reads, and what follows it
  pub Reads-Keeps :
      {A B : Type 0} (m : Action A) (f : A → Action B) (s : Session)
      → Reads s (m s)
      → ((a : A) (s' : Session) → IsClean s' → Keeps G s'.store (f a s'))
      → Keeps G s.store ((m >>= f) s)
  Reads-Keeps {A} m f s reads rest = elim (Action-cases m s) [
    | inl (a, s', e) ↦
        let (same, clean) : Reads s (ok a, s') = rw e at reads in
        rw (>>=-of_ok m f e) (subst (λ db. Keeps G db (f a s')) same (rest a s' clean))
    | inr (q, s', e) ↦
        let (same, clean) : Reads {A = A} s (raise q, s') = rw e at reads in
        rw (>>=-of_raise m f e) (subst (λ db. G s.store db) (sym same) (closed.idle s.store))
  ]
