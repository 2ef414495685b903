-- ===== src/Router/Rank.antt =====
-- src/router.rs: a query sent to the tiers, and the fusion of their ranks.
mod Defs
pub mod Merge
pub mod Fused
pub mod Tiers
pub mod Hits
pub mod Failures
unfoldable pub use Defs.*
