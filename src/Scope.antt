-- ===== src/Scope.antt =====
-- internal/scope: which targets and ports may be probed.
pub mod Address
pub mod Engine
pub mod Decide
pub mod Job
pub mod Validate
pub mod Preview
pub mod Expand
