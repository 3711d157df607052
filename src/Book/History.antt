-- ===== src/Book/History.antt =====
-- What a command leaves of the transactions that were there.
use mathlib.Core.Path.{subst}
use banking_payments_api.Prelude.{
  ℕ, ◌≡◌, refl, ap, ◌∙◌, Bool-cases, Option-cases, sym, inl, inr, true, false, none, some, List, [],
  ◌∷◌, arith, ◌==◌,
}
use banking_payments_api.Prelude.Int.{ℤ, pos, ◌+ℤ◌, ◌-ℤ◌, ltb_ℤ}
use banking_payments_api.Store.Models.{TransactionStatus, is_pending}
use banking_payments_api.Book.{
  Book, Entry, Command, open_account, deposit, pay, confirm, cancel, expire, put, set, write,
  settled, enter, refund, step, run,
}

-- A later state of a transaction: its account, its other side and its amount stay, and so does its
-- status once it is not pending.
pub record Later (e e' : Entry) : Type 0 where
  pub account : e'.account ≡ e.account
  pub related : e'.related ≡ e.related
  pub amount : e'.amount ≡ e.amount
  pub final : is_pending e.status ≡ false → e'.status ≡ e.status

pub Later-refl : (e : Entry) → Later e e
Later-refl e = record { account = refl; related = refl; amount = refl; final = λ _. refl }

pub Later-trans : (a b c : Entry) → Later a b → Later b c → Later a c
Later-trans a b c p q = record {
  account = q.account ∙ p.account;
  related = q.related ∙ p.related;
  amount = q.amount ∙ p.amount;
  final = λ h. let same = p.final h in q.final (rw same h) ∙ same;
}

-- the transaction is there, in a later state
abbrev pub Kept : ℕ → Entry → Book → Type 0
Kept k e book = (e' : Entry) × (book.entry k ≡ some e') × Later e e'

module _ (k : ℕ) (e : Entry) (book : Book) (there : book.entry k ≡ some e) where
  entered-Kept :
      (n : ℕ) (new : Entry) (book' : Book) → enter n new book ≡ some book' → book'.entry k ≡ some e
  unfolding write
  entered-Kept n new book' done = elim (Option-cases (book.entry n)) [
    | inl free ↦ elim (Bool-cases (n == k)) [
      | inl same ↦
          let p : n ≡ k = ground arith in
          let gone : book.entry k ≡ none = rw p at free in absurd (ground arith)
      | inr other ↦
          let e' : write n new book ≡ book' = ground arith in
          subst (λ (b : Book). b.entry k ≡ some e) e' (rw other there)
    ]
    | inr (old, taken) ↦ absurd (ground arith)
  ]

  settled-Kept :
      (j : ℕ) (old : Entry) (st : TransactionStatus)
      → book.entry j ≡ some old
      → is_pending old.status ≡ true
      → Kept k e (write j (settled st old) book)
  unfolding write
  settled-Kept j old st found waiting = elim (Bool-cases (j == k)) [
    | inl same ↦
        let p : j ≡ k = ground arith in
        let q : old ≡ e = ground arith in
        (
          settled st old,
          rw same refl,
          rw (← q) (record {
            account = refl;
            related = refl;
            amount = refl;
            final = λ h. absurd (ground arith);
          }),
        )
    | inr other ↦ (e, rw other there, Later-refl e)
  ]

  refunded-Kept :
      (j : ℕ) (old : Entry) (book' : Book)
      → book.entry j ≡ some old
      → is_pending old.status ≡ true
      → refund j old book ≡ some book'
      → Kept k e book'
  unfolding set write
  refunded-Kept j old book' found waiting done = elim (Option-cases (book.balance old.account)) [
    | inl closed ↦ absurd (ground arith)
    | inr (b, held) ↦
        let e' : write j (settled TransactionStatus.failed old)
              (set old.account (b +ℤ old.amount) book)
            ≡ book' =
          ground arith in
        subst (Kept k e) e' (settled-Kept j old TransactionStatus.failed found waiting)
  ]

module _ (k : ℕ) (e : Entry) (book book' : Book) (there : book.entry k ≡ some e) where
  deposit-Kept : (j n : ℕ) (x : ℤ) → step (deposit j n x) book ≡ some book' → Kept k e book'
  unfolding step set
  deposit-Kept j n x done = elim (Option-cases (book.balance j)) [
    | inl closed ↦ absurd (ground arith)
    | inr (b, held) ↦
        let entered : enter n _ (set j (b +ℤ x) book) ≡ some book' = rw held at done in
        (e, entered-Kept k e (set j (b +ℤ x) book) there n _ book' entered, Later-refl e)
  ]

  pay-Kept : (j n r : ℕ) (x : ℤ) → step (pay j n r x) book ≡ some book' → Kept k e book'
  unfolding step set
  pay-Kept j n r x done = elim (Option-cases (book.balance j)) [
    | inl closed ↦ absurd (ground arith)
    | inr (b, held) ↦ elim (Bool-cases (ltb_ℤ b x)) [
      | inl short ↦
          let entered : enter n _ book ≡ some book' = rw (held, short) at done in
          (e, entered-Kept k e book there n _ book' entered, Later-refl e)
      | inr covered ↦
          let entered : enter n _ (set j (b -ℤ x) book) ≡ some book' = rw (held, covered) at done in
          (e, entered-Kept k e (set j (b -ℤ x) book) there n _ book' entered, Later-refl e)
    ]
  ]

  cancel-Kept : (j : ℕ) → step (cancel j) book ≡ some book' → Kept k e book'
  unfolding step
  cancel-Kept j done = elim (Option-cases (book.entry j)) [
    | inl unknown ↦ absurd (ground arith)
    | inr (old, found) ↦ elim (Bool-cases (is_pending old.status)) [
      | inl waiting ↦
          refunded-Kept k e book there j old book' found waiting (rw (found, waiting) at done)
      | inr settles ↦ absurd (ground arith)
    ]
  ]

  expire-Kept : (j : ℕ) → step (expire j) book ≡ some book' → Kept k e book'
  unfolding step
  expire-Kept j done = elim (Option-cases (book.entry j)) [
    | inl unknown ↦ let same : book ≡ book' = ground arith in (e, rw same at there, Later-refl e)
    | inr (old, found) ↦ elim (Bool-cases (is_pending old.status)) [
      | inl waiting ↦ refunded-Kept k e book there j old book' found waiting (ground arith)
      | inr settles ↦ let same : book ≡ book' = ground arith in (e, rw same at there, Later-refl e)
    ]
  ]

  open_account-Kept : (j : ℕ) → step (open_account j) book ≡ some book' → Kept k e book'
  unfolding step set
  open_account-Kept j done = elim (Option-cases (book.balance j)) [
    | inl free ↦
        let opened : record book { balance = put j (pos 0) book.balance } ≡ book' = ground arith in
        (e, sym (ap (λ (b : Book). b.entry k) opened) ∙ there, Later-refl e)
    | inr (b, taken) ↦ absurd (ground arith)
  ]

  confirm-Kept : (j n : ℕ) → step (confirm j n) book ≡ some book' → Kept k e book'
  unfolding step set
  confirm-Kept j n done = elim (Option-cases (book.entry j)) [
    | inl unknown ↦ absurd (ground arith)
    | inr (old, found) ↦ elim (Option-cases old.related) [
      | inl alone ↦ absurd (ground arith)
      | inr (r, related) ↦ elim (Option-cases (book.balance r)) [
        | inl closed ↦ absurd (ground arith)
        | inr (b, held) ↦ elim (Bool-cases (is_pending old.status)) [
          | inr settles ↦ absurd (ground arith)
          | inl waiting ↦
              let paid = set r (b +ℤ old.amount) book in
              let new : Entry = record {
                account = r;
                related = some old.account;
                amount = old.amount;
                status = TransactionStatus.completed;
              } in
              elim (Option-cases (enter n new paid)) [
                | inl taken ↦ absurd (ground arith)
                | inr (mid, entered) ↦
                    let written : write j (settled TransactionStatus.completed old) mid ≡ book' =
                      ground arith in
                    subst (Kept k e) written (
                      settled-Kept k e mid (entered-Kept k e paid there n new mid entered) j old
                        TransactionStatus.completed
                        (entered-Kept j old paid found n new mid entered) waiting)
              ]
        ]
      ]
    ]
  ]

  pub step-Kept : (c : Command) → step c book ≡ some book' → Kept k e book'
  step-Kept (open_account j) done = open_account-Kept j done
  step-Kept (deposit j n x) done = deposit-Kept j n x done
  step-Kept (pay j n r x) done = pay-Kept j n r x done
  step-Kept (confirm j n) done = confirm-Kept j n done
  step-Kept (cancel j) done = cancel-Kept j done
  step-Kept (expire j) done = expire-Kept j done

-- Whatever commands a book goes on by, a transaction that is there stays there, with its account, its
-- other side and its amount, and with its status once that is not pending.
pub run-Kept :
    (cs : List Command) (k : ℕ) (e : Entry) (book book' : Book)
    → book.entry k ≡ some e
    → run cs book ≡ some book'
    → Kept k e book'
unfolding run
run-Kept [] k e book book' there done =
    let same : book ≡ book' = ground arith in (e, rw same at there, Later-refl e)
run-Kept (c ∷ cs) k e book book' there done = elim (Option-cases (step c book)) [
  | inl refused ↦ absurd (ground arith)
  | inr (mid, first) ↦
      let (e₁, there₁, later) = step-Kept k e book mid there c first in
      let rest : run cs mid ≡ some book' = rw first at done in
      let (e₂, there₂, later₂) = run-Kept cs k e₁ mid book' there₁ rest in
      (e₂, there₂, Later-trans e e₁ e₂ later later₂)
]
