-- ===== src/TrailerRefs.antt =====
-- src/trailer_refs.rs: the keys under which the trailers of a message are found.
mod Defs
pub mod Tokens
pub mod Hashes
pub mod Keys
pub mod Raw
unfoldable pub use Defs.*
