-- ===== src/Routers.antt =====
-- app/routers/*.py.
pub mod Transactions
pub mod Confirmation
pub mod Auth
pub mod Accounts
pub mod Admin
