-- ===== src/Interleaving/Rule.antt =====
-- How to show that requests at the same time keep a condition on the committed rows: each segment
-- keeps it from any rows that have it, whatever the other requests have committed in between.
use banking_payments_api.Prelude.{ℕ, zero, suc, List, [], ◌∷◌, ◌++◌, inl, inr}
use banking_payments_api.Prelude.Lists.{All}
use banking_payments_api.Store.Models.{Database}
use banking_payments_api.Store.Errors.{Outcome, ok, raise}
use banking_payments_api.Store.Session.{Session, Action-cases}
use banking_payments_api.Interleaving.{
  Program, last, next, Thread, facing, advance, turn, run, advance-of_ok, advance-of_raise,
}

module _ (I : Database → Type 0) where
  -- the condition after a segment, and what holds of its result and its session if it did not raise
  abbrev pub After : {B : Type 0} → (B → Session → Type 0) → Outcome B × Session → Type 0
  After P (ok b, s) = I s.store × P b s
  After P (raise _, s) = I s.store

  -- the segments that are left keep the condition
  abbrev pub Keeping : {A : Type 0} → Program A → Session → Type 0
  Keeping (last m) s = (db : Database) → I db → I (m (facing s db)).1.store
  Keeping (next m f) s = (db : Database) → I db → After (λ b. Keeping (f b)) (m (facing s db))

  abbrev pub KeptBy : Thread → Type 0
  KeptBy t = Keeping t.program t.session

  advance-Keeping :
      {A : Type 0} (p : Program A) (s : Session) (db : Database)
      → Keeping p s
      → I db
      → let (db', ts) = advance p s db in I db' × All KeptBy ts
  unfolding advance
  advance-Keeping (last m) s db keeping h = (keeping db h, tt)
  advance-Keeping (next m f) s db keeping h = elim (Action-cases m (facing s db)) [
    | inl (b, s', e) ↦
        let after : After (λ b'. Keeping (f b')) (ok b, s') = rw e at (keeping db h) in
        rw (advance-of_ok m f s db e) (after.0, (after.1, tt))
    | inr (x, s', e) ↦
        let after : After (λ b'. Keeping (f b')) (raise x, s') = rw e at (keeping db h) in
        rw (advance-of_raise m f s db e) (after, tt)
  ]

  All-append : (ts us : List Thread) → All KeptBy ts → All KeptBy us → All KeptBy (ts ++ us)
  All-append [] us h k = k
  All-append (t ∷ ts) us h k = (h.0, All-append ts us h.1 k)

  turn-Keeping :
      (i : ℕ) (db : Database) (ts : List Thread)
      → All KeptBy ts
      → I db
      → let (db', ts') = turn i db ts in I db' × All KeptBy ts'
  unfolding turn
  turn-Keeping i db [] all h = (h, tt)
  turn-Keeping zero db (t ∷ ts) all h =
      let (h', rest) = advance-Keeping t.program t.session db all.0 h in
      (h', All-append (advance t.program t.session db).1 ts rest all.1)
  turn-Keeping (suc i) db (t ∷ ts) all h =
      let (h', rest) = turn-Keeping i db ts all.1 h in (h', (all.0, rest))

  pub run-Keeping :
      (schedule : List ℕ) (db : Database) (ts : List Thread)
      → All KeptBy ts
      → I db
      → I (run schedule db ts).0
  unfolding run
  run-Keeping [] db ts all h = h
  run-Keeping (i ∷ is) db ts all h =
      let (h', rest) = turn-Keeping i db ts all h in
      run-Keeping is (turn i db ts).0 (turn i db ts).1 rest h'
