-- ===== src/Attestation.antt =====
-- The attestation layer, src/arxdb/attestation.
pub mod Roster
pub mod Attest
pub mod History
