-- ===== src/Reaper.antt =====
-- `ReservationReaperService` (src/reservation-reaper/reservation-reaper.service.ts).
mod Defs
unfoldable pub use Defs.*
