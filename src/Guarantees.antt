-- ===== src/Guarantees.antt =====
-- What the service promises, stated for every database that keeps its own promises.
pub mod Accounts
pub mod Retries
pub mod Locks
pub mod Batches
pub mod Reservations
pub mod Days
pub mod Ranges
pub mod Outcomes
pub mod Reconciling
pub mod Attempts
pub mod Repeats
pub mod Access
pub mod Served
pub mod Keys
pub mod Delivery
pub mod MockSafe
pub mod MockBalances
pub mod MockRestored
pub mod MockBatches
pub mod Queues
pub mod Holding
pub mod Overlaps
pub mod Replays
pub mod Interleavings
pub mod Counts
pub mod Doubles
pub mod Bodies
pub mod Commands
