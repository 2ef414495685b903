-- ===== src/Ingest/Walk.antt =====
-- The loop of `ingest_shard_with_bm25` over the commits of a shard.
mod Defs
pub mod Reads
pub mod Counts
unfoldable pub use Defs.*
