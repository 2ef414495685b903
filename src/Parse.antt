-- ===== src/Parse.antt =====
-- src/parse.rs: a message and what the tiers take from it.
pub mod Message
pub mod Subject
pub mod Body
pub mod Trailers
pub mod Patch
