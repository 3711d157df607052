-- ===== src/Book/Once.antt =====
-- A payment is settled by a confirmation once at most.
use banking_payments_api.Prelude.{
  ℕ, ◌≤◌, ◌≡◌, refl, sym, ap, ◌∙◌, Bool, some, List, [], ◌∷◌, true, false, ◌==◌, arith, inl, inr,
  Option-cases, Bool-cases,
}
use banking_payments_api.Prelude.Int.{◌+ℤ◌}
use banking_payments_api.Store.Models.{TransactionStatus, is_pending}
use banking_payments_api.Store.Queries.{tally}
use banking_payments_api.Book.{
  Book, Entry, Command, open_account, deposit, pay, confirm, cancel, expire, put, set, write,
  settled, enter, step, run,
}
use banking_payments_api.Book.History.{step-Kept}

-- a command that reports what became of a payment
abbrev pub reports : ℕ → Command → Bool
reports k (confirm j n) = j == k
reports k (cancel j) = j == k
reports k _ = false

-- the payment was pending, and is settled after the command
record Settled (k : ℕ) (book book' : Book) : Type 0 where
  before : Entry
  later : Entry
  found : book.entry k ≡ some before
  waiting : is_pending before.status ≡ true
  there : book'.entry k ≡ some later
  settles : is_pending later.status ≡ false

-- what is written last is found
written : (k : ℕ) (e : Entry) (mid book' : Book) → write k e mid ≡ book' → book'.entry k ≡ some e
unfolding write
written k e mid book' done =
    let here : put k e mid.entry k ≡ some e = ground arith in
    sym (ap (λ (b : Book). b.entry k) done) ∙ here

module _ (k : ℕ) (book book' : Book) where
  cancel-Settled : step (cancel k) book ≡ some book' → Settled k book book'
  unfolding step
  cancel-Settled done = elim (Option-cases (book.entry k)) [
    | inl unknown ↦ absurd (ground arith)
    | inr (e, found) ↦ elim (Bool-cases (is_pending e.status)) [
      | inr settles ↦ absurd (ground arith)
      | inl waiting ↦ elim (Option-cases (book.balance e.account)) [
        | inl closed ↦ absurd (ground arith)
        | inr (b, held) ↦ record {
          before = e;
          later = settled TransactionStatus.failed e;
          found = found;
          waiting = waiting;
          there =
              written k (settled TransactionStatus.failed e) (set e.account (b +ℤ e.amount) book)
                book' (ground arith);
          settles = refl;
        }
      ]
    ]
  ]

  confirm-Settled : (n : ℕ) → step (confirm k n) book ≡ some book' → Settled k book book'
  unfolding step
  confirm-Settled n done = elim (Option-cases (book.entry k)) [
    | inl unknown ↦ absurd (ground arith)
    | inr (e, found) ↦ elim (Option-cases e.related) [
      | inl alone ↦ absurd (ground arith)
      | inr (r, related) ↦ elim (Option-cases (book.balance r)) [
        | inl closed ↦ absurd (ground arith)
        | inr (b, held) ↦ elim (Bool-cases (is_pending e.status)) [
          | inr settles ↦ absurd (ground arith)
          | inl waiting ↦
              let new : Entry = record {
                account = r;
                related = some e.account;
                amount = e.amount;
                status = TransactionStatus.completed;
              } in
              elim (Option-cases (enter n new (set r (b +ℤ e.amount) book))) [
                | inl taken ↦ absurd (ground arith)
                | inr (mid, entered) ↦ record {
                  before = e;
                  later = settled TransactionStatus.completed e;
                  found = found;
                  waiting = waiting;
                  there =
                      written k (settled TransactionStatus.completed e) mid book' (ground arith);
                  settles = refl;
                }
              ]
        ]
      ]
    ]
  ]

reports-Settled :
    (k : ℕ) (c : Command) (book book' : Book)
    → reports k c ≡ true
    → step c book ≡ some book'
    → Settled k book book'
reports-Settled k (confirm j n) book book' mine done =
    let p : j ≡ k = ground arith in confirm-Settled k book book' n (rw p at done)
reports-Settled k (cancel j) book book' mine done =
    let p : j ≡ k = ground arith in cancel-Settled k book book' (rw p at done)
reports-Settled k (open_account j) book book' mine done = cc
reports-Settled k (deposit j n x) book book' mine done = cc
reports-Settled k (pay j n r x) book book' mine done = cc
reports-Settled k (expire j) book book' mine done = cc

-- a settled payment is not reported on again
none_after :
    (cs : List Command) (k : ℕ) (e : Entry) (book book' : Book)
    → book.entry k ≡ some e
    → is_pending e.status ≡ false
    → run cs book ≡ some book'
    → tally (reports k) cs ≡ 0
unfolding run
none_after [] k e book book' there settles done = refl
none_after (c ∷ cs) k e book book' there settles done = elim (Option-cases (step c book)) [
  | inl refused ↦ absurd (ground arith)
  | inr (mid, first) ↦ elim (Bool-cases (reports k c)) [
    | inl mine ↦
        let s = reports-Settled k c book mid mine first in
        let same : e ≡ s.before = ground (arith, s.found) in
        let waiting : is_pending e.status ≡ true = rw same s.waiting in absurd (ground arith)
    | inr other ↦
        let (e', there', later) = step-Kept k e book mid there c first in
        let rest : run cs mid ≡ some book' = rw first at done in
        let zero_more =
          none_after cs k e' mid book' there'
            (ap (λ st. is_pending st) (later.final settles) ∙ settles) rest in
        ground arith
  ]
]

-- However a book goes on, each payment is reported on once at most.
pub run_once :
    (cs : List Command) (k : ℕ) (book book' : Book)
    → run cs book ≡ some book'
    → tally (reports k) cs ≤ 1
unfolding run
run_once [] k book book' done = omega arith
run_once (c ∷ cs) k book book' done = elim (Option-cases (step c book)) [
  | inl refused ↦ absurd (ground arith)
  | inr (mid, first) ↦
      let rest : run cs mid ≡ some book' = rw first at done in
      elim (Bool-cases (reports k c)) [
        | inl mine ↦
            let s = reports-Settled k c book mid mine first in
            let no_more = none_after cs k s.later mid book' s.there s.settles rest in ground arith
        | inr other ↦ let more = run_once cs k mid book' rest in ground arith
      ]
]
