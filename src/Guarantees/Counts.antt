-- ===== src/Guarantees/Counts.antt =====
-- How often HCM is called for one row of the outbox.
use wizdaa_takehome.Database.{Database}
use wizdaa_takehome.Ledger.Reached.{Reached}
