-- ===== src/Verification.antt =====
-- The verification layer, src/arxdb/verification.
pub mod Schema
pub mod Elenchus
pub mod Checkers
pub mod Kappa
pub mod Verifier
pub mod Commit
