-- ===== src/Reconciliation.antt =====
-- `ReconciliationService` (src/reconciliation/reconciliation.service.ts).
mod Defs
unfoldable pub use Defs.*
