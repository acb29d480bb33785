-- ===== src/Fingerprint.antt =====
-- internal/fingerprint/rules.go: rules, predicates on evidence, the score of a rule, and rankings.
pub mod Model
pub mod Match
pub mod Score
pub mod Rank
