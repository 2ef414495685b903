-- ===== src/Reader.antt =====
-- src/reader.rs: the rows that queries return, and what the router asks of a reader.
mod Rows
mod Service
pub mod Matches
pub mod Scan
pub mod Freshest
pub mod Answers
unfoldable pub use Rows.*
pub use Service.*
