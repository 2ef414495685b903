-- ===== src/Ingest/Head.antt =====
-- src/ingest.rs: the commit from which a shard is walked.
mod Defs
pub mod Best
unfoldable pub use Defs.*
