-- ===== src/Calendar.antt =====
-- Civil dates as the source reads them: `countBusinessDays` of
-- src/time-off-request/time-off-request.service.ts, the calls of JavaScript's `Date` that it makes,
-- and the validation of src/time-off-request/dto/submit-request.dto.ts.
mod Defs
unfoldable pub use Defs.*
