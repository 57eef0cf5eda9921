-- ===== src/Model.antt =====
-- The shared schema of the program (internal/model), a module for each group of its files.
pub mod Value
pub mod Catalog
pub mod Disclosure
pub mod Pcore
pub mod Diagnostic
pub mod Change
pub mod Provenance
pub mod Result
