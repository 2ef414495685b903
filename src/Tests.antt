-- ===== src/Tests.antt =====
-- Runs on concrete inputs, and each theorem at an input that meets its conditions.
mod State
mod Store
mod Tid
mod Sync
mod Timeout
mod Trigram
mod TrailerRefs
mod Router
mod Parse
mod Rank
mod Scan
mod Head
mod PathTier
mod Ingest
