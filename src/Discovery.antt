-- ===== src/Discovery.antt =====
-- internal/discovery, internal/observation and internal/collectors: the probes of a scan, what is
-- kept of their answers, and what a batch of observations becomes in the store.
pub mod Sanitize
pub mod Dialer
pub mod Collect
pub mod Probe
pub mod Store
pub mod Sqlite
pub mod Changes
pub mod Result
pub mod Ingest
pub mod Run
