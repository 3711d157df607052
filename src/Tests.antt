-- ===== src/Tests.antt =====
-- A small bank, and the theorems at work on it.
pub mod Bank
mod Money
mod Refusals
mod Requests
mod Rows
pub mod Auth
pub mod Tokens
pub mod Sorting
pub mod Steps
mod Book
mod Overlap
mod Migrations
mod Access
mod Completion
mod Interleaving
