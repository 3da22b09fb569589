-- ===== src/Dispatcher.antt =====
-- `OutboxDispatcherService` (src/hcm/outbox-dispatcher.service.ts).
mod Defs
unfoldable pub use Defs.*
