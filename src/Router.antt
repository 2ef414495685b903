-- ===== src/Router.antt =====
-- src/router.rs: the query language.
mod Defs
pub mod Rank
pub mod Cursor
pub mod Words
pub mod Query
unfoldable pub use Defs.*
