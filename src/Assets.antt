-- ===== src/Assets.antt =====
-- Asset identity: internal/assets/resolver.go and the tables of internal/storage/sqlite/store.go
-- that it works on.
pub mod Inventory
pub mod Resolve
pub mod Matches
pub mod Conflict
pub mod Repeat
pub mod Stable
pub mod Persist
pub mod Later
pub mod Standing
pub mod Merge
