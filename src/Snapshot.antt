-- ===== src/Snapshot.antt =====
-- The canonical JSON of snapshots and fingerprints (internal/snapshot/canonical.go).
pub mod Number
pub mod Canonical
