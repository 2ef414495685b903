-- ===== src/Sync.antt =====
-- src/sync.rs: which shards a sync fetches, and what a fetch of one shard leaves on the disk.
pub mod Glob
pub mod Manifest
pub mod Fetch
