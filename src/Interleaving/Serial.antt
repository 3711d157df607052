-- ===== src/Interleaving/Serial.antt =====
-- Requests that come one after the other are among the ways to run them at the same time.
use banking_payments_api.Prelude.{
  ℕ, zero, suc, ◌≡◌, refl, sym, ap, ◌∙◌, List, [], ◌∷◌, ◌++◌, inl, inr,
}
use banking_payments_api.Store.Models.{Database}
use banking_payments_api.Store.Session.{Session, >>=-of_ok, >>=-of_raise, Action-cases}
use banking_payments_api.Security.{Security}
use banking_payments_api.Routers.Transactions.{Encodings}
use banking_payments_api.Routers.Confirmation.{Gateway}
use banking_payments_api.Interleaving.{
  Program, last, next, alone, Thread, facing, advance, turn, run, advance-of_ok, advance-of_raise,
}
use banking_payments_api.Interleaving.Requests.{Request, start, rows_after, threads}
use banking_payments_api.Interleaving.Alone.Rows.{alone_rows}

abbrev turns : ℕ → List ℕ
turns zero = []
turns (suc n) = zero ∷ turns n

-- one schedule after another
run-append :
    (is js : List ℕ) (db : Database) (ts : List Thread)
    → run (is ++ js) db ts ≡ (let (db', ts') = run is db ts in run js db' ts')
unfolding run
run-append [] js db ts = refl
run-append (i ∷ is) js db ts = let (db', ts') = turn i db ts in run-append is js db' ts'

-- the first thread runs to its end, and the others wait
run_first :
    {A : Type 0} (p : Program A) (s : Session) (db : Database) (ts : List Thread)
    → (n : ℕ) × (run (turns n) db (record { Answer = A; session = s; program = p } ∷ ts)
        ≡ ((alone p (facing s db)).1.store, ts))
unfolding run turn alone
run_first (last m) s db ts = (1, unfold advance in refl)
run_first {A} (next m f) s db ts = elim (Action-cases m (facing s db)) [
  | inl (b, s', e) ↦
      let (n, ends) = run_first (f b) s' s'.store ts in
      (
        suc n,
        ap (λ (r : Database × List Thread). run (turns n) r.0 (r.1 ++ ts))
              (advance-of_ok m f s db e)
            ∙ (ends ∙ ap (λ r. (r.1.store, ts)) (sym (>>=-of_ok m (λ b'. alone (f b')) e))),
      )
  | inr (x, s', e) ↦ (
    1,
    ap (λ (r : Database × List Thread). (r.0, r.1 ++ ts)) (advance-of_raise m f s db e)
        ∙ ap (λ r. (r.1.store, ts)) (sym (>>=-of_raise m (λ b'. alone (f b')) e)),
  )
]

module _ (enc : Encodings) {Bytes : Type 0} (g : Gateway Bytes) (sec : Security) where
  -- the rows after requests that come one after the other
  unfoldable pub one_by_one : Database → List (ℕ × Request Bytes) → Database
  one_by_one db [] = db
  one_by_one db (r ∷ rs) = one_by_one (rows_after enc g sec db r) rs

  -- Requests that come one after the other, each handled as a whole as in app/, are one of the ways in
  -- which these requests can run at the same time: some order of their segments ends all of them and
  -- leaves the same rows.
  pub serial-run :
      (first : Database) (requests : List (ℕ × Request Bytes)) (db : Database)
      → (is : List ℕ) × (run is db (threads enc g sec first requests)
          ≡ (one_by_one db requests, []))
  unfolding run one_by_one
  serial-run first [] db = ([], refl)
  serial-run first (r ∷ rs) db =
      let t = start enc g sec first r in
      let (n, ends) = run_first t.program t.session db (threads enc g sec first rs) in
      let rows = alone_rows enc g sec first db r in
      let (is, rest) = serial-run first rs (rows_after enc g sec db r) in
      (
        turns n ++ is,
        run-append (turns n) is db (t ∷ threads enc g sec first rs)
            ∙ (ap (λ (r : Database × List Thread). run is r.0 r.1) ends
                ∙ (ap (λ d. run is d (threads enc g sec first rs)) rows ∙ rest)),
      )
