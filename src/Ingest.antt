-- ===== src/Ingest.antt =====
-- src/ingest.rs: one shard walked into the store and the tiers.
pub mod Rows
pub mod Head
pub mod Walk
pub mod Shard
