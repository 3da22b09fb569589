-- ===== src/Requests.antt =====
-- `TimeOffRequestService` (src/time-off-request/time-off-request.service.ts): the methods; what is
-- proved of them is in the modules below.
mod Defs
mod Methods
unfoldable pub use Defs.*
unfoldable pub use Methods.*
