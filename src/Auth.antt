-- ===== src/Auth.antt =====
-- Authentication of requests: internal/auth/auth.go.
pub mod Tables
pub mod Requests
pub mod Rotation
pub mod Sessions
pub mod Refresh
