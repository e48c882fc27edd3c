-- ===== src/Audit.antt =====
-- internal/audit: the hash chain of audit records.
pub mod Record
pub mod Encoding
pub mod Chain
pub mod Tamper
mod Tests
