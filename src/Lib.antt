-- ===== src/Lib.antt =====
-- Verification of the banking payments API.
--
-- The program is a FastAPI service over PostgreSQL. A customer deposits money and pays others
-- (app/routers/transactions.py over app/services/payments.py); a payment takes its amount from the
-- sender at once and waits as a pending transaction until the payment gateway confirms it
-- (app/routers/webhooks.py over app/services/webhook_processing.py), which moves the amount to the
-- recipient or back to the sender; an hourly job (app/scheduler.py over app/services/cleanup.py)
-- expires payments that were never confirmed. Idempotency keys (app/services/idempotency.py) make
-- a repeated payment request answer what the first one did, and the unique event ids make a repeated
-- delivery do nothing. Customers register and log in (app/routers/auth.py): a refresh token is stored
-- by its hash and revoked when it is exchanged for a new one.
--
-- Files:
--   Prelude          Boolean tests, integers over the native naturals, lists
--   Store/Models     the rows of app/models/*.py with app/enums.py, and the database that holds them
--   Store/Decimal    `Decimal` amounts and the column type Numeric(12, 2)
--   Store/Errors     the exceptions that the code raises or catches, as values
--   Store/Schema     the constraints of the tables; the statements of a flush
--   Store/Session    a session of app/database.py: committed rows, the accounts that it has loaded
--                    (the identity map) and the changes that wait for a commit; an action of the
--                    code is a function from a session to an outcome and the session after it
--   Payments         app/services/payments.py
--   Idempotency      app/services/idempotency.py
--   Webhooks         app/services/webhook_processing.py
--   Cleanup          app/services/cleanup.py and run_cleanup_job of app/scheduler.py
--   Schemas          app/schemas/transaction.py and app/schemas/webhook.py
--   Security         app/security.py
--   Dependencies     app/dependencies.py
--   Store/Queries    LIMIT and OFFSET of the listings, and what ORDER BY promises
--   Routers          app/routers/transactions.py (Transactions, with Listing below it);
--                    payment_confirmation of app/routers/webhooks.py with
--                    app/services/webhook_signature.py (Confirmation); app/routers/auth.py (Auth);
--                    app/routers/accounts.py (Accounts); app/routers/admin.py (Admin)
--   Ledger           the funds of the bank (the balances and the amounts of pending payments), the
--                    invariant (no negative balance, positive amounts), and how an action that ends
--                    in a commit moves them
--   Book             an abstract ledger, which knows balances and transactions by id and no tables,
--                    sessions or times: its commands, the view of a database as a book, and how
--                    the services and the cleanup job follow the commands
--   Bank             all of it as steps from the rows before to the rows after, one session each
--   Interleaving     requests at the same time: each handler as a program of segments, which end at a
--                    commit or at a query that locks nothing, and schedules that say whose segment
--                    comes next; Programs and Access cut the handlers, Alone compares them with the
--                    handlers as a whole
--   Migrations       alembic/versions/*.py as lists of operations on the columns of tables, on
--                    enumeration types and on constraints and indexes by name, and what
--                    app/models/*.py declare of these under the names of app/database.py
--   Tests            a small bank, and the theorems at work on it
--
-- A function of the model has the name of the function of the code. The ids that `uuid.uuid4()` gives
-- to new rows are arguments. Money is whole cents in ℤ, ids and times (in seconds) are naturals;
-- a description is the list of its code points, other texts are strings.
--
-- Choices. A session sees one time, `now`, throughout. Its identity map holds every account that it
-- has loaded until a rollback; a query for a loaded account answers with that object, as SQLAlchemy
-- does without `populate_existing`. Keys, events and transactions are read from the committed rows.
-- SQLAlchemy holds the objects of the identity map weakly, the model until a rollback. `db.get` of
-- a key (finalize_idempotency_key) is read from the committed rows too, so a key that the cleanup has
-- deleted meanwhile is passed over where the code would raise a StaleDataError. A registration takes
-- the address that EmailStr has normalised, a login the text of the form.
-- A commit flushes the changes in the order in which they were made, all or none. Two sessions meet
-- in the committed rows only, between their commits; a session is clean when it has nothing to write
-- and its loaded accounts are as committed, as every session is that has just been opened. All
-- recursion is structural, so no fuel is needed. The steps of Bank do not overlap;
-- Interleaving has any number of requests at the same time, and Payments/Overlap two sessions that
-- change one balance. A segment runs as a whole: a row that it has locked by `with_for_update` stays
-- locked until its commit. PostgreSQL's isolation level is READ COMMITTED: a segment sees what is
-- committed when it runs.
--
-- Parameters: json.dumps, SHA-256, HMAC, Pydantic's JSON both ways, the decoding of a body, the texts
-- of ids and amounts in messages, the password hash, the signed tokens, what EmailStr makes of an
-- address, and PostgreSQL's ORDER BY.
--
-- Not modelled: logging, settings, rate limits, the scheduler's timer, and alembic/env.py.
pub mod Prelude
pub mod Store
pub mod Interleaving
pub mod Ledger
pub mod Migrations
pub mod Payments
pub mod Idempotency
pub mod Webhooks
pub mod Cleanup
pub mod Schemas
pub mod Security
pub mod Dependencies
pub mod Routers
pub mod Bank
pub mod Book
pub mod Tests
