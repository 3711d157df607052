-- ===== src/Idempotency/Keys.antt =====
-- Reserving and finalizing a key move no money, and keep the session clean.
use Prim.Native.String.{String}
use mathlib.Core.Path.{subst}
use banking_payments_api.Prelude.{
  ℕ, ◌≡◌, refl, sym, ap, Option, none, some, List, [], ◌∷◌, inl, inr, arith, Option-cases, ◌⊎◌,
}
use banking_payments_api.Prelude.Int.{pos, +ℤ_zero}
use banking_payments_api.Store.Tables.{find, find-id, update}
use banking_payments_api.Store.Models.{Database, IdempotencyKey, idempotency_key_id}
use banking_payments_api.Store.Errors.{◌>>=◌ as ◌>>=ᵒ◌, Exc, ok, raise, integrity_error, data_error}
use banking_payments_api.Store.Schema.{unless, insert_key, key_error, with_response, apply, flush}
use banking_payments_api.Store.Session.{Session, commit, rollback}
use banking_payments_api.Store.Session.Loading.{IsClean}
use banking_payments_api.Ledger.{funds}
use banking_payments_api.Ledger.Moves.{Moves, Moved, SameAccounts, SameAccounts-refl}
use banking_payments_api.Idempotency.{
  key_row, reserve_idempotency_key, finalize_idempotency_key, or_none,
}

abbrev pub with_keys : Session → List IdempotencyKey → Session
with_keys s keys = record s { store = record s.store { idempotency_keys = keys }; unflushed = [] }

with_keys-Moved :
    (s : Session) (keys : List IdempotencyKey)
    → IsClean s
    → Moved SameAccounts s.store (pos 0) (with_keys s keys)
unfolding funds
with_keys-Moved s keys clean = record {
  funds = sym (+ℤ_zero (funds s.store));
  sound = λ h. record { solvent = h.solvent; positive = h.positive };
  frame = record { accounts = refl; entries = refl };
  clean = record { current = clean.current; flushed = refl };
}

flush_key :
    (now : ℕ) (k : IdempotencyKey) (db : Database) {o : Option Exc}
    → key_error db k ≡ o
    → flush now (insert_key k ∷ []) db
      ≡ unless o (record db { idempotency_keys = k ∷ db.idempotency_keys })
unfolding flush apply
flush_key now k db {o = none} e =
    ap (λ o. unless o (record db { idempotency_keys = k ∷ db.idempotency_keys }) >>=ᵒ ok) e
flush_key now k db {o = some x} e =
    ap (λ o. unless o (record db { idempotency_keys = k ∷ db.idempotency_keys }) >>=ᵒ ok) e

key_error-cases :
    (db : Database) (k : IdempotencyKey) (x : Exc)
    → key_error db k ≡ some x
    → (x ≡ integrity_error) ⊎ (x ≡ data_error)
unfolding key_error
key_error-cases db k x e = ground arith

module _ (user : ℕ) (key endpoint hash : String) (n : ℕ) (s : Session)
    (clean : s.unflushed ≡ []) where
  -- the row is written if the constraints allow it
  pub reserve_written :
      key_error s.store (key_row n user key endpoint hash s.now) ≡ none
      → reserve_idempotency_key user key endpoint hash n s ≡ (
        ok (some (key_row n user key endpoint hash s.now)),
        with_keys s (key_row n user key endpoint hash s.now ∷ s.store.idempotency_keys),
      )
  unfolding reserve_idempotency_key or_none commit
  reserve_written e =
      ground (arith, flush_key s.now (key_row n user key endpoint hash s.now) s.store e)

  -- a taken key: nothing is written, and the session is rolled back
  pub reserve_taken :
      key_error s.store (key_row n user key endpoint hash s.now) ≡ some integrity_error
      → reserve_idempotency_key user key endpoint hash n s
        ≡ (ok none, record s { identity_map = []; unflushed = [] })
  unfolding reserve_idempotency_key or_none commit rollback
  reserve_taken e =
      ground (arith, flush_key s.now (key_row n user key endpoint hash s.now) s.store e)

  -- a value that its column cannot hold: the exception is passed on
  pub reserve_refused :
      key_error s.store (key_row n user key endpoint hash s.now) ≡ some data_error
      → reserve_idempotency_key user key endpoint hash n s ≡ (
        raise data_error,
        record s { unflushed = insert_key (key_row n user key endpoint hash s.now) ∷ [] },
      )
  unfolding reserve_idempotency_key or_none commit
  reserve_refused e =
      ground (arith, flush_key s.now (key_row n user key endpoint hash s.now) s.store e)

  -- In a clean session, reserving a key moves no money and touches no account; a call that raises has
  -- written nothing.
  pub reserve_idempotency_key-Moves :
      IsClean s
      → Moves SameAccounts s.store (pos 0) (reserve_idempotency_key user key endpoint hash n s)
  reserve_idempotency_key-Moves whole =
      elim (Option-cases (key_error s.store (key_row n user key endpoint hash s.now))) [
        | inl free ↦ rw (reserve_written free) (with_keys-Moved s _ whole)
        | inr (x, refused) ↦ elim (key_error-cases s.store _ x refused) [
          | inl taken ↦ rw (reserve_taken (rw taken at refused)) (record {
            funds = sym (+ℤ_zero (funds s.store));
            sound = λ h. h;
            frame = SameAccounts-refl s.store;
            clean = record { current = λ j l h. cc; flushed = refl };
          })
          | inr too_long ↦ rw (reserve_refused (rw too_long at refused))
        ]
      ]

module _ (entry code : ℕ) (body : String) (s : Session) (whole : IsClean s) where
  pub finalized :
      (row : IdempotencyKey)
      → find entry s.store.idempotency_keys ≡ some row
      → finalize_idempotency_key entry code body s
        ≡ (ok tt, with_keys s (update row.id (with_response code body) s.store.idempotency_keys))
  unfolding finalize_idempotency_key commit flush apply
  finalized row found =
      let clean = whole.flushed in
      let id = find-id entry row s.store.idempotency_keys found in
      let again : find row.id s.store.idempotency_keys ≡ some row =
        subst (λ k. find k s.store.idempotency_keys ≡ some row) (sym id) found in
      ground arith

  -- In a clean session, storing a response moves no money and touches no account.
  pub finalize_idempotency_key-Moves :
      Moves SameAccounts s.store (pos 0) (finalize_idempotency_key entry code body s)
  finalize_idempotency_key-Moves = elim (Option-cases (find entry s.store.idempotency_keys)) [
    | inl gone ↦
        let e : finalize_idempotency_key entry code body s ≡ (ok tt, s) =
          unfold finalize_idempotency_key in ground arith in
        rw e (record {
          funds = sym (+ℤ_zero (funds s.store));
          sound = λ h. h;
          frame = SameAccounts-refl s.store;
          clean = whole;
        })
    | inr (row, found) ↦ rw (finalized row found) (with_keys-Moved s _ whole)
  ]
