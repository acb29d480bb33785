-- ===== src/Importer.antt =====
-- internal/importer: the import of Nmap XML and of JSON lines, and what an imported observation
-- becomes. The decoders of XML and JSON are the library's: the input is what they give, with the
-- number of bytes read.
pub mod Input
pub mod Nmap
pub mod Jsonl
pub mod Sanitized
pub mod Accepted
pub mod DryRun
pub mod Pipeline
