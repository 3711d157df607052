-- ===== src/Book/Following.antt =====
-- How actions change the book by runs of commands.
use Prim.Native.String.{String}
use text.Mathlib.Text.{◌==◌ as str_eq}
use banking_payments_api.Prelude.{
  given, ℕ, ◌≡◌, refl, sym, ap, ◌∙◌, Bool, true, some, List, [], ◌∷◌, ◌++◌, inl, inr, arith,
  Bool-cases, Option-cases,
}
use banking_payments_api.Prelude.Lists.{All}
use banking_payments_api.Store.Models.{account_id}
use banking_payments_api.Store.Decimal.{Decimal}
use banking_payments_api.Store.Session.{Session, Action, Action-cases}
use banking_payments_api.Store.Session.Loading.{IsClean}
use banking_payments_api.Ledger.Moves.{Frame}
use banking_payments_api.Ledger.Composing.{Keeps, Closed}
use banking_payments_api.Book.{Book, Command, step, run, is_settlement}
use banking_payments_api.Book.View.{view, balance_in}
use banking_payments_api.Book.Services.{Implements}
use banking_payments_api.Book.Settling.{
  process_payment_succeeded-Implements, process_payment_failed-Implements,
}
use banking_payments_api.Webhooks.{confirm, process_payment_succeeded, process_payment_failed}

run-append :
    (cs ds : List Command) (book : Book) → run (cs ++ ds) book ≡ given (run cs book) (run ds)
unfolding run
run-append [] ds book = refl
run-append (c ∷ cs) ds book = elim (Option-cases (step c book)) [
  | inl refused ↦ ground arith
  | inr (next, done) ↦ rw done (run-append cs ds next)
]

All-append : (P : Command → Type 0) (cs ds : List Command) → All P cs → All P ds → All P (cs ++ ds)
All-append P [] ds h h' = h'
All-append P (c ∷ cs) ds h h' = (h.0, All-append P cs ds h.1 h')

-- The book after is the book before and a run of commands that pass the test.
abbrev pub Follows : (Command → Bool) → Frame
Follows p db db' =
    (cs : List Command) × (All (λ c. p c ≡ true) cs) × (run cs (view db) ≡ some (view db'))

module _ (p : Command → Bool) where
  pub Follows-Closed : Closed (Follows p)
  unfolding run view
  Follows-Closed = record {
    idle = λ db. ([], tt, refl);
    after = λ {a} {b} {c} (cs, h, e) (ds, h', e'). (
      cs ++ ds,
      All-append (λ c. p c ≡ true) cs ds h h',
      run-append cs ds (view a) ∙ (ap (λ o. given o (run ds)) e ∙ e'),
    );
    kept = λ {db} {s'} moved.
        ([], tt, ap some (sym (rw (ap balance_in moved.frame.accounts, moved.frame.entries) refl)));
  }

  pub Implements-Follows :
      {A : Type 0} (c : Command) (m : Action A) (s : Session)
      → p c ≡ true
      → Implements c s.store (m s)
      → Keeps (Follows p) s.store (m s)
  unfolding run
  Implements-Follows c m s mine implements = elim (Action-cases m s) [
    | inl (a, s', e) ↦
        let done : step c (view s.store) ≡ some (view s'.store) = rw e at implements in
        rw e (c ∷ [], (mine, tt), ap (λ o. given o some) done)
    | inr (x, s', e) ↦
        let same : view s'.store ≡ view s.store = rw e at implements in
        rw e ([], tt, ap some (sym same))
  ]

pub confirm-Follows :
    (event_type : String) (k : ℕ) (amount : Decimal) (n : ℕ) (s : Session)
    → IsClean s
    → Keeps (Follows is_settlement) s.store (confirm event_type k amount n s)
unfolding confirm
confirm-Follows event_type k amount n s clean =
    elim (Bool-cases (str_eq event_type "payment.succeeded")) [
      | inl succeeded ↦ rw succeeded (
          Implements-Follows is_settlement (Command.confirm k n)
            (process_payment_succeeded k amount n) s refl
            (process_payment_succeeded-Implements k n amount s clean))
      | inr failed ↦ rw failed (
          Implements-Follows is_settlement (Command.cancel k) (process_payment_failed k amount) s
            refl (process_payment_failed-Implements k amount s clean))
    ]
