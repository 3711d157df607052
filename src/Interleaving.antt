-- ===== src/Interleaving.antt =====
-- Requests at the same time. A request is a program of segments: the database answers a segment as a
-- whole, and other requests may commit between two of them. A segment ends at a commit or after a
-- query that locks nothing; `SELECT … FOR UPDATE` and what follows it up to the commit is one segment.
pub mod Programs
pub mod Access
pub mod Requests
pub mod Alone
pub mod Serial
pub mod Final
pub mod Settlements
pub mod Deliveries
pub mod Steady
pub mod Together
pub mod Solvency
pub mod Sweeping
pub mod Finality
pub mod Rule
pub mod Changes
pub mod Money
pub mod Routes
pub mod Answers
pub mod Users
pub mod Settling
pub mod Triples
use banking_payments_api.Prelude.{ℕ, zero, suc, ◌≡◌, List, [], ◌∷◌, ◌++◌, arith}
use banking_payments_api.Store.Models.{Database}
use banking_payments_api.Store.Errors.{Exc, ok, raise}
use banking_payments_api.Store.Session.{Session, Action, ◌>>=◌}

pub data Program (A : Type 0) : Type 1 where
  last : Action A → Program A
  next : {B : Type 0} → Action B → (B → Program A) → Program A

-- the program without other requests
unfoldable pub alone : {A : Type 0} → Program A → Action A
alone (last m) = m
alone (next m f) = m >>= λ b. alone (f b)

-- a request on its way: its session, and what is left of its program
pub record Thread : Type 1 where
  pub Answer : Type 0
  pub session : Session
  pub program : Program Answer

-- the session in front of the rows that are committed by now
abbrev pub facing : Session → Database → Session
facing s db = record s { store = db }

-- the rows after the next segment of a thread, and the thread unless it has ended
unfoldable pub advance : {A : Type 0} → Program A → Session → Database → Database × List Thread
advance (last m) s db = ((m (facing s db)).1.store, [])
advance {A} (next m f) s db =
    let (r, s') = m (facing s db) in
    elim r [
      | ok b ↦ (s'.store, record { Answer = A; session = s'; program = f b } ∷ [])
      | raise e ↦ (s'.store, [])
    ]

module _ {A B : Type 0} (m : Action B) (f : B → Program A) (s : Session) (db : Database)
    {s' : Session} where
  pub advance-of_ok :
      {b : B}
      → m (facing s db) ≡ (ok b, s')
      → advance (next m f) s db
        ≡ (s'.store, record { Answer = A; session = s'; program = f b } ∷ [])
  unfolding advance
  advance-of_ok e = ground arith

  pub advance-of_raise :
      {x : Exc} → m (facing s db) ≡ (raise x, s') → advance (next m f) s db ≡ (s'.store, [])
  unfolding advance
  advance-of_raise e = ground arith

-- the turn of the thread at a place, if there is one
unfoldable pub turn : ℕ → Database → List Thread → Database × List Thread
turn i db [] = (db, [])
turn zero db (t ∷ ts) = let (db', rest) = advance t.program t.session db in (db', rest ++ ts)
turn (suc i) db (t ∷ ts) = let (db', ts') = turn i db ts in (db', t ∷ ts')

-- a schedule: whose turn it is, again and again
unfoldable pub run : List ℕ → Database → List Thread → Database × List Thread
run [] db ts = (db, ts)
run (i ∷ is) db ts = let (db', ts') = turn i db ts in run is db' ts'
