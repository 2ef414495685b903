-- ===== src/Trigram.antt =====
-- src/trigram.rs: the index of the byte trigrams of patches, and the documents it proposes.
mod Defs
pub mod Numbers
pub mod Index
pub mod Search
unfoldable pub use Defs.*
