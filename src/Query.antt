-- ===== src/Query.antt =====
-- The query layer, src/arxdb/query.
pub mod Resolve
pub mod Reachability
pub mod Path
pub mod Refutation
