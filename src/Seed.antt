-- ===== src/Seed.antt =====
-- The seed corpus, src/arxdb/seed, and the script that imports it, scripts/seed_phaser.py.
pub mod Corpus
pub mod Ingest
pub mod Known
pub mod Twice
