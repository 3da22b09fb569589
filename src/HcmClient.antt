-- ===== src/HcmClient.antt =====
-- The client of HCM (src/hcm/hcm-client.service.ts). What axios gives for one attempt is a parameter.
mod Defs
unfoldable pub use Defs.*
