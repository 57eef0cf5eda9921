-- ===== src/Normalize.antt =====
-- The catalogs that PuppetDB and the compiler send, in one form (internal/normalize).
pub mod Reference
pub mod Wire
pub mod Values
pub mod Catalog
