-- ===== src/Findings.antt =====
-- Findings: internal/findings and the table of findings of internal/storage/sqlite/store.go.
pub mod Rules
pub mod Grade
pub mod Table
pub mod Upsert
