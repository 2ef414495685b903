-- ===== src/Parse/Body.antt =====
-- src/parse.rs: the prose of a body and its patch.
mod Defs
pub mod First
unfoldable pub use Defs.*
