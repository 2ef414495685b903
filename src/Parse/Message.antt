-- ===== src/Parse/Message.antt =====
-- src/parse.rs: `ParsedMessage` and `parse_message`.
mod Defs
pub mod Consistent
unfoldable pub use Defs.*
