-- ===== src/Balances.antt =====
-- `BalanceService` (src/balance/balance.service.ts): the methods; what is proved of them is in the
-- modules below.
mod Defs
mod Reconcile
unfoldable pub use Defs.*
unfoldable pub use Reconcile.*
