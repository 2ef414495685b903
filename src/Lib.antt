-- ===== src/Lib.antt =====
-- Verification library of kernel-lore-mcp, an index of mailing list archives with a query server.
--
-- The program mirrors public-inbox repositories (src/sync.rs), walks their commits (src/ingest.rs),
-- parses every message (src/parse.rs), appends its bytes to a compressed store (src/store.rs), and
-- feeds the search tiers: metadata in Parquet (src/metadata.rs, src/schema.rs), SQLite
-- (src/over.rs), trigrams of patches (src/trigram.rs), a full text index (src/bm25.rs), file paths
-- (src/path_tier.rs) and vectors (src/embedding.rs). A side table holds thread ids (src/tid.rs).
-- src/state.rs keeps the progress and says which tier is current. src/reader.rs and src/router.rs
-- answer queries, within the limits of src/timeout.rs.
--
-- Files and code:
--   Base, Base/*      lists, options and tests on native numbers; a stable sort
--   Text, Text/*      `str` and `char` as the components use them: a text is its list of characters
--   Error, Dict       src/error.rs, and maps keyed by text
--   State, State/*    src/state.rs: `atomic_write` as a step of a disk under a fault of any of its
--                     system calls, the commit id files, the generation and the tier markers, and
--                     `tier_marker_is_current` of src/reader.rs
--   Store, Store/*    src/store.rs: segment files as bytes; `append` takes how much of a frame a
--                     failing write leaves; `read` and `read_at`; zstd and sha256 are the parameter
--                     `Codec`, with the laws of zstd in `IsCodec`
--   Tid, Tid/*        src/tid.rs: `assign_tids` and `resolve_tid_lite` on the list of all rows, the
--                     subject buckets, and the rows that `rebuild` writes
--   Sync, Sync/*      src/sync.rs: `fnmatch`, `path_matches`, `diff_manifest`, and `fetch_shard` over
--                     the parameter `Git` for the disk, gix and git2
--   Trigram, Trigram/*  src/trigram.rs: `SegmentBuilder::add`, `candidate_docids` and the exact
--                     search; the fst and roaring files are the builder's postings and message ids
--   TrailerRefs, TrailerRefs/*  src/trailer_refs.rs: the keys that `extract_trailer_refs` cuts out of a
--                     trailer, and `normalize_trailer_ref_value` that prepares a lookup
--   Reader, Reader/*  src/reader.rs: its rows, the tests of a row, and `scan` as `eq` and `in_list` use it, on
--                     files, batches and deadline checks whose outcomes are given;
--                     and its queries as the interface of the router
--   Router, Router/*  src/router.rs: `tokenize_tagged`, `parse_time_bound` over the parameter
--                     `Calendar` for the clock and the time formats, `parse_query`, `dispatch` and
--                     `rrf_merge` over `Machine` for f32 and the order of hash maps, and the cursors
--                     over `Crypto` for serde_json, HMAC and base64
--   Parse, Parse/*    src/parse.rs: `decompose_subject`, `split_prose_and_patch`, `extract_trailers`,
--                     `parse_patch`, and `parse_message` on what mail_parser reads (`Mail`)
--   Ingest, Ingest/*  src/ingest.rs: `Walk` is the loop of `ingest_shard_with_bm25` over the commits,
--                     on the parser, the trigram builder and the store; `Shard` is what is walked
--                     and the order of the writes behind the loop; `Rows` has `build_over_row`;
--                     `Head` is `resolve_walk_head_id` over the parameter `Refs` for git2
--   PathTier, PathTier/*  src/path_tier.rs: the vocabulary, its lookups and its file, over a parameter
--                     for the Aho-Corasick automaton
--   Timeout           src/timeout.rs: the checks and the guards, and code that runs under them
--   Tests, Tests/*    runs on concrete inputs, and each theorem at one
--
-- Bounds and fuel: a `u64` that is read from a file keeps its bound in `parse_unsigned`, document
-- positions keep theirs in `add`, and the elapsed milliseconds wrap at 2 ^ 64. An `i64` date stands
-- for the number that is 2 ^ 63 larger. The climb to the root of a thread has one more than the
-- number of rows as fuel; every round visits a row that it did not visit before, so it ends first.
-- The loops over a subject line have one more than its length, and each round shortens it.
--
-- Not modelled: the system calls themselves, locks and fsync, the texts of error messages, Parquet,
-- SQLite, tantivy, the vector index, the HTTP requests, the Python bindings and the programs of
-- src/bin. Of the reader, the other scans and what is built on them are not modelled either.
pub mod Base
pub mod Text
pub mod Error
pub mod Dict
pub mod State
pub mod Store
pub mod Tid
pub mod Sync
pub mod TrailerRefs
pub mod Reader
pub mod Router
pub mod Parse
pub mod Trigram
pub mod Ingest
pub mod PathTier
pub mod Timeout
mod Tests
