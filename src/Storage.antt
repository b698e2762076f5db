-- ===== src/Storage.antt =====
-- The storage layer, src/arxdb/storage.
pub mod Hashing
pub mod Merkle
pub mod Serialization
pub mod Keys
pub mod ObjectStore
pub mod GraphIndex
pub mod AppendLog
pub mod Facade
