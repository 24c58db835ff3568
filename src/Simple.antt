-- ===== src/Simple.antt =====
-- The simple ledger, `src/simple/mod.rs`.
pub mod Account
pub mod Laws
pub mod Changes
pub mod Store
pub mod Postgres
pub mod Book
mod Tests
