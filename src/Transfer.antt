-- ===== src/Transfer.antt =====
-- The transfer aggregate, `src/transfer/`.
pub mod Defs
mod Names
pub mod Handle
pub mod View
pub mod Steps
pub mod Failures
pub mod Laws
pub mod Follow
pub mod Rollback
pub mod Completes
mod Tests
