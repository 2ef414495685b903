-- ===== src/Parse/Trailers.antt =====
-- src/parse.rs: the trailers of a message.
mod Defs
pub mod Lines
pub mod Found
unfoldable pub use Defs.*
