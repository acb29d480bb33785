-- ===== src/Tests.antt =====
-- Concrete inputs: a text form of addresses, an engine, a table and an inventory, and the runs and
-- instances of theorems on them.
mod Codec
mod Scope
mod Jobs
mod Assets
mod Auth
mod Findings
mod Merge
mod Service
mod Lab
mod Discovery
mod Records
mod Importer
mod Api
mod Config
mod Fingerprint
