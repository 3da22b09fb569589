-- ===== src/BalanceLock.antt =====
-- The queue of waiting calls (src/common/lock/balance-lock.service.ts).
mod Defs
pub mod Order
mod Finish
pub mod Moves
pub mod Fifo
unfoldable pub use Defs.*
