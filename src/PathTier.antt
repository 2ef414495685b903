-- ===== src/PathTier.antt =====
-- src/path_tier.rs: the vocabulary of source paths and its lookups.
mod Defs
pub mod Runs
pub mod Lookup
pub mod Vocab
unfoldable pub use Defs.*
