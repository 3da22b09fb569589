-- ===== src/Ledger.antt =====
-- What the tables say together: the reservations, the committed days and the outbox, as invariants
-- that the methods of all services keep.
pub mod Rows
pub mod Reserved
pub mod Apart
pub mod Value
pub mod Filed
pub mod Moves
pub mod Reject
pub mod Cancel
pub mod Reads
pub mod Approve
mod Created
pub mod Submit
pub mod Added
pub mod Sent
pub mod Dispatch
pub mod Respects
pub mod Reconcile
pub mod Methods
pub mod Reached
pub mod Walk
pub mod Approving
mod Endings
mod Entries
pub mod Sections
pub mod Flights
pub mod Carried
mod Landed
pub mod Lifecycle
pub mod Living
mod Passing
pub mod Counted
pub mod Progress
pub mod Aloft
pub mod Halves
pub mod Sending
pub mod Tries
pub mod Trying
