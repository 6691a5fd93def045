-- ===== src/Compliance.antt =====
-- The compliance context: the hash-chained audit log of compliance/, and its GST and FEMA
-- records.
pub mod Audit
pub mod Values
pub mod Records
mod Tests
mod RecordTests
