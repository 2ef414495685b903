-- ===== src/Store.antt =====
-- src/store.rs: the compressed message store of one list. `Defs` has the operations; the children
-- prove what a reader may rely on.
mod Defs
pub mod Names
pub mod Append
pub mod Reading
pub mod RoundTrip
pub mod Runs
pub mod Torn
unfoldable pub use Defs.*
