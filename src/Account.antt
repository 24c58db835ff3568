-- ===== src/Account.antt =====
-- The account aggregate, `src/account/`.
pub mod Commands
pub mod Events
pub mod Processed
pub mod State
pub mod Handle
pub mod Apply
pub mod Effect
pub mod History
pub mod Replay
pub mod Undo
pub mod Lifecycle
pub mod Drained
pub mod View
pub mod Tests
