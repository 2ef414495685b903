-- ===== src/State.antt =====
-- src/state.rs: the files under `<data_dir>/state/`, each replaced by a temporary file and a rename.
-- `Disk` has the files and the atomic write, `Defs` the operations of `State`.
pub mod Disk
mod Defs
pub mod Atomic
pub mod Oids
pub mod Markers
pub mod Others
unfoldable pub use Defs.*
