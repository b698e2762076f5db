-- ===== src/Examples.antt =====
-- Concrete instances of the third-party packages, and the theorems applied to concrete inputs.
mod Codec
mod Packages
mod Backends
mod MerkleTree
mod Objects
mod Graph
mod Log
mod Commit
mod Fixpoint
mod Query
mod Attestation
mod Rosters
mod Refutation
mod Path
mod Elenchus
mod Verifier
mod Proposals
mod Http
mod Seed
