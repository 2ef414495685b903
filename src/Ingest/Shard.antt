-- ===== src/Ingest/Shard.antt =====
-- `ingest_shard_with_bm25` around its loop.
mod Defs
pub mod Progress
unfoldable pub use Defs.*
