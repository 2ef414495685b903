-- ===== src/Parse/Patch.antt =====
-- src/parse.rs: the files, functions and line counts of a patch.
mod Defs
pub mod Counts
pub mod Totals
pub mod Names
unfoldable pub use Defs.*
