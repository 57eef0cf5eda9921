-- ===== src/Diff.antt =====
-- The comparison of two normalized catalogs (internal/diff), a module for each pass and file.
pub mod Redact
pub mod Raw
pub mod Edges
pub mod Exclusion
pub mod Fidelity
pub mod Resources
pub mod Publish
pub mod Fingerprint
pub mod Run
