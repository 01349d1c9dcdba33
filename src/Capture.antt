-- ===== src/Capture.antt =====
-- src/proxy_capture.rs: what the proxy records of the traffic, decodes and catalogues.
pub mod Wildcard
pub mod Redact
pub mod Shape
pub mod Record
pub mod Lines
pub mod Records
pub mod Inspector
pub mod Tree
pub mod Catalog
pub mod Analyzer
pub mod Tests
