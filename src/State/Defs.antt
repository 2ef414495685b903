-- ===== src/State/Defs.antt =====
-- The operations of `State`, and the reader's test of a tier marker (src/reader.rs).
use kernel_lore_mcp.Base.{
  ℕ, ◌+◌, ◌-◌, Bool, true, false, not, ◌&&◌, List, [], ◌∷◌, ◌++◌, length, all, leb, ltb, ◌==◌,
  if◌then◌else◌, Option, none, some,
}
use kernel_lore_mcp.Text.{Text, codes, is_hexdigit, trim}
use kernel_lore_mcp.Text.Decimal.{to_string, parse_unsigned, u64_bound}
use kernel_lore_mcp.Error.{Done, Result, ok, err, io, state, ok_or, ◌>>=◌, ◌>>◌}
use kernel_lore_mcp.State.Disk.{
  FilePath, Contents, missing, unreadable, file, Disk, Fault, atomic_write,
}

abbrev pub state_dir : List Text
state_dir = codes "state" ∷ []

abbrev pub shard_oid_path : Text → Text → FilePath
shard_oid_path list shard = record {
  dir = codes "state" ∷ codes "shards" ∷ list ∷ [];
  name = shard ++ codes ".oid";
}

abbrev pub generation_path : FilePath
generation_path = record { dir = state_dir; name = codes "generation" }

abbrev pub tier_generation_path : Text → FilePath
tier_generation_path tier = record { dir = state_dir; name = tier ++ codes ".generation" }

-- 40 hexadecimal digits
abbrev pub is_oid : Text → Bool
is_oid s = length s == 40 && all is_hexdigit s

read_oid : Contents → Result (Option Text)
read_oid (file s) = let t = trim s in if is_oid t then ok (some t) else err state
read_oid missing = ok none
read_oid unreadable = err io

unfoldable pub last_indexed_oid : Text → Text → Disk → Result (Option Text)
unfolding read_oid
last_indexed_oid list shard d = read_oid (d (shard_oid_path list shard))

unfoldable pub save_last_indexed_oid : Fault → Text → Text → Text → Disk → Done × Disk
save_last_indexed_oid fault list shard oid d =
    if not (is_oid oid)
    then (err state, d)
    else atomic_write fault (shard_oid_path list shard) (oid ++ 10 ∷ []) d

read_generation : Contents → Result ℕ
read_generation (file s) = ok_or state (parse_unsigned u64_bound (trim s))
read_generation missing = ok 0
read_generation unreadable = err io

unfoldable pub generation : Disk → Result ℕ
unfolding read_generation
generation d = read_generation (d generation_path)

-- `u64::saturating_add(1)`
abbrev pub saturating_suc : ℕ → ℕ
saturating_suc n = if ltb (n + 1) u64_bound then n + 1 else u64_bound - 1

store_generation : Fault → Result ℕ → Disk → Result ℕ × Disk
store_generation fault (err e) d = (err e, d)
store_generation fault (ok current) d =
    let next = saturating_suc current in
    let (r, d') = atomic_write fault generation_path (to_string next ++ 10 ∷ []) d in
    (r >> ok next, d')

unfoldable pub bump_generation : Fault → Disk → Result ℕ × Disk
unfolding store_generation
bump_generation fault d = store_generation fault (generation d) d

read_tier : Contents → Result (Option ℕ)
read_tier (file s) = do n ← ok_or state (parse_unsigned u64_bound (trim s)); ok (some n)
read_tier missing = ok none
read_tier unreadable = err io

unfoldable pub tier_generation : Text → Disk → Result (Option ℕ)
unfolding read_tier
tier_generation tier d = read_tier (d (tier_generation_path tier))

unfoldable pub set_tier_generation : Fault → Text → ℕ → Disk → Done × Disk
set_tier_generation fault tier n d =
    atomic_write fault (tier_generation_path tier) (to_string n ++ 10 ∷ []) d

marker_reaches : ℕ → Result (Option ℕ) → Bool
marker_reaches corpus (ok none) = true
marker_reaches corpus (ok (some n)) = leb corpus n
marker_reaches corpus (err e) = false

unfoldable pub marker_is_current : Result ℕ → Result (Option ℕ) → Bool
unfolding marker_reaches
marker_is_current (err e) marker = false
marker_is_current (ok corpus) marker = if corpus == 0 then true else marker_reaches corpus marker

-- `Reader::tier_marker_is_current`, with the outcome of its `State::new`
unfoldable pub tier_marker_is_current : Done → Text → Disk → Bool
unfolding marker_is_current
tier_marker_is_current (err e) tier d = false
tier_marker_is_current (ok _) tier d = marker_is_current (generation d) (tier_generation tier d)
