-- ===== src/Order.antt =====
-- The order aggregate, `src/order/`.
pub mod Defs
mod Names
pub mod Handle
pub mod View
pub mod Ends
pub mod Machine
pub mod Steps
pub mod Laws
pub mod Sides
pub mod Resume
pub mod Cancel
pub mod Locks
pub mod Follow
mod Tests
