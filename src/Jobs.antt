-- ===== src/Jobs.antt =====
-- The job queue: the jobs table of internal/storage/sqlite/store.go and the workers of
-- internal/jobs/manager.go.
pub mod Stamp
pub mod Model
pub mod Table
pub mod Rows
pub mod Claim
pub mod Invariant
pub mod Orphan
pub mod Cancel
pub mod Create
pub mod Lease
pub mod Manager
