-- ===== src/Store.antt =====
-- The database behind the application: app/models/*.py, app/database.py and the session through
-- which the services read and write it.
pub mod Tables
pub mod Models
pub mod Decimal
pub mod Errors
pub mod Schema
pub mod Session
pub mod Queries
