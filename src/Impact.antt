-- ===== src/Impact.antt =====
-- The estimates of a change's impact (internal/impact).
pub mod Pql
pub mod Querier
pub mod All
