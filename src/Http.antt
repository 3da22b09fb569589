-- ===== src/Http.antt =====
-- The controllers in front of the services (src/time-off-request/time-off-request.controller.ts,
-- src/balance/balance.controller.ts, src/reconciliation/batch.controller.ts), and the body of a
-- submission.
mod Defs
mod Dates
mod Bodies
unfoldable pub use Defs.*
unfoldable pub use Dates.*
unfoldable pub use Bodies.*
