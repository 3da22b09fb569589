-- ===== src/MockHcm.antt =====
-- The stand-in for HCM (src/mock-hcm).
mod Store
mod Routes
mod Control
mod Bodies
unfoldable pub use Store.*
unfoldable pub use Routes.*
unfoldable pub use Control.*
unfoldable pub use Bodies.*
