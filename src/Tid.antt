-- ===== src/Tid.antt =====
-- src/tid.rs: the thread id of every message, and the files that a cover letter inherits.
mod Defs
pub mod Climb
pub mod Agree
pub mod Fallback
pub mod Propagate
unfoldable pub use Defs.*
