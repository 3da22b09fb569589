-- ===== src/Tests.antt =====
-- Runs of the model at concrete inputs.
mod Reference
mod Data
mod Runs
mod Accounts
mod Components
mod Dates
mod Routes
mod Mock
mod Overlap
mod Queue
mod Flights
mod Doubles
mod Bodies
