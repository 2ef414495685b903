-- ===== src/Text.antt =====
-- Text as the source sees it: a `str` is the list of its characters (Unicode scalar values), and the
-- methods of `str` and `char` that the components call.
mod Chars
mod Cut
mod Compare
mod Lines
pub mod Trim
pub mod Clean
pub mod Parts
pub mod Distinct
pub mod Keyed
pub mod Lengths
pub mod Search
pub mod Suffix
pub mod Sorted
pub mod Decimal
unfoldable pub use Chars.*
unfoldable pub use Cut.*
unfoldable pub use Compare.*
unfoldable pub use Lines.*
