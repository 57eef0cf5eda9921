-- ===== src/Examples.antt =====
-- Concrete inputs for the theorems, and runs of the definitions on them.
mod Data
mod Outcomes
mod Differ
mod Content
mod Groups
mod Queries
mod Estimates
mod Configs
mod Runs
mod Numbers
mod Endpoints
