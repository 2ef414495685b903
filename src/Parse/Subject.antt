-- ===== src/Parse/Subject.antt =====
-- src/parse.rs: the parts of a subject line.
mod Defs
pub mod Total
unfoldable pub use Defs.*
