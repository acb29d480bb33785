-- ===== src/Records.antt =====
-- internal/storage/sqlite/store.go: the append-only records of the store (observations, candidates,
-- policy decisions, audit events) and the table of change events, with the reads that page them.
pub mod Observations
pub mod Sources
pub mod Changes
pub mod Occurrences
pub mod Policy
pub mod Trail
pub mod Pages
