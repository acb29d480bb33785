-- ===== src/Api.antt =====
-- internal/api/api.go: the guards of the HTTP API and the handlers that change state. Routing, the
-- decoding of JSON and rate limiters are a library's.
pub mod Guard
pub mod Login
pub mod Scans
pub mod Pages
