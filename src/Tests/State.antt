-- ===== src/Tests/State.antt =====
-- src/state.rs on concrete files.
use kernel_lore_mcp.Base.{ℕ, true, ◌≡◌, refl, ◌&&◌, ◌⊎◌, arith, if◌then◌else◌, some, none, ◌↔◌, ◌≤◌}
use kernel_lore_mcp.Text.{Text, codes, text_eq, trim}
use kernel_lore_mcp.Text.Decimal.{to_string, parse_unsigned}
use kernel_lore_mcp.Error.{Done, ok, err, io, state}
use kernel_lore_mcp.State.{
  last_indexed_oid, save_last_indexed_oid, generation, bump_generation, tier_generation,
  set_tier_generation, generation_path, tier_marker_is_current,
}
use kernel_lore_mcp.State.Disk.{
  Disk, missing, file, path_eq, no_fault, at_write, at_rename, atomic_write,
}
use kernel_lore_mcp.State.Atomic.{atomic_write_all_or_nothing}
use kernel_lore_mcp.State.Oids.{is_ok, last_indexed_oid-save}
use kernel_lore_mcp.State.Markers.{tier_generation-set, tier_marker_is_current_iff}

abbrev fresh : Disk
fresh p = missing

abbrev oid : Text
oid = codes "0123456789abcdef0123456789abcdef01234567"

abbrev lkml : Text
lkml = codes "lkml"

abbrev shard : Text
shard = codes "0"

abbrev saved : Disk
saved = (save_last_indexed_oid no_fault lkml shard oid fresh).1

save_then_read : last_indexed_oid lkml shard saved ≡ ok (some oid)
unfolding save_last_indexed_oid last_indexed_oid atomic_write path_eq text_eq trim
save_then_read = refl

bad_oid_refused : (save_last_indexed_oid no_fault lkml shard (codes "xyz") fresh).0 ≡ err state
unfolding save_last_indexed_oid
bad_oid_refused = refl

abbrev counted : Disk
counted = (bump_generation no_fault fresh).1

counted_reads_one : generation counted ≡ ok 1
unfolding bump_generation generation atomic_write path_eq text_eq trim to_string parse_unsigned
counted_reads_one = refl

atomic_write_all_or_nothing_example :
    (((atomic_write (at_write 3) generation_path oid fresh).0 ≡ ok tt)
      × ((atomic_write (at_write 3) generation_path oid fresh).1 generation_path ≡ file oid))
    ⊎ (((atomic_write (at_write 3) generation_path oid fresh).0 ≡ err io)
        × ((atomic_write (at_write 3) generation_path oid fresh).1 generation_path ≡ missing))
atomic_write_all_or_nothing_example =
    atomic_write_all_or_nothing (at_write 3) generation_path oid fresh

last_indexed_oid-save_example :
    last_indexed_oid lkml shard (save_last_indexed_oid at_rename lkml shard oid fresh).1 ≡ (
      if (text_eq lkml lkml && text_eq shard shard)
        && is_ok (save_last_indexed_oid at_rename lkml shard oid fresh).0
      then ok (some oid)
      else last_indexed_oid lkml shard fresh)
last_indexed_oid-save_example = last_indexed_oid-save at_rename lkml shard oid fresh lkml shard refl

tier_generation-set_example :
    (tier_generation (codes "bm25") (set_tier_generation no_fault (codes "over") 4 counted).1 ≡ (
      if text_eq (codes "over") (codes "bm25")
        && is_ok (set_tier_generation no_fault (codes "over") 4 counted).0
      then ok (some 4)
      else tier_generation (codes "bm25") counted))
    × (generation (set_tier_generation no_fault (codes "over") 4 counted).1 ≡ generation counted)
tier_generation-set_example =
    tier_generation-set no_fault (codes "over") (codes "bm25") 4 counted (omega arith)

-- The corpus is at 1 and the tier has no marker: the reader trusts it.
tier_marker_is_current_iff_example :
    (tier_marker_is_current (ok tt) (codes "over") counted ≡ true) ↔ (
      (◌≡◌ {A = Done} (ok tt) (ok tt))
      × ((n : ℕ) × (generation counted ≡ ok n)
          × ((n ≡ 0)
              ⊎ ((tier_generation (codes "over") counted ≡ ok none)
                  ⊎ ((m : ℕ) × (tier_generation (codes "over") counted ≡ ok (some m)) × (n ≤ m))))))
tier_marker_is_current_iff_example = tier_marker_is_current_iff (ok tt) (codes "over") counted
