-- ===== src/State/Others.antt =====
-- The generations are kept apart from the last indexed commits.
use kernel_lore_mcp.Base.{◌≡◌, refl, ℕ, ◌++◌, [], ◌∷◌, false, inl, inr}
use kernel_lore_mcp.Text.{Text, codes, text_eq}
use kernel_lore_mcp.Text.Decimal.{to_string}
use kernel_lore_mcp.Error.{Result-cases}
use kernel_lore_mcp.State.Disk.{Disk, Fault, path_eq}
use kernel_lore_mcp.State.Atomic.{atomic_write_frame}
use kernel_lore_mcp.State.Defs.{
  state_dir, generation_path, tier_generation_path, shard_oid_path, generation, saturating_suc,
  last_indexed_oid, bump_generation, set_tier_generation,
}

-- The last indexed commits of all shards are the same.
abbrev pub SameOids : Disk → Disk → Type 0
SameOids d d' = (list shard : Text) → last_indexed_oid list shard d' ≡ last_indexed_oid list shard d

state_path-ne-oid :
    (name list shard : Text)
    → path_eq (record { dir = state_dir; name = name }) (shard_oid_path list shard) ≡ false
unfolding path_eq text_eq
state_path-ne-oid name list shard = refl

pub set_tier_generation-SameOids :
    (f : Fault) (t : Text) (n : ℕ) (d : Disk) → SameOids d (set_tier_generation f t n d).1
unfolding set_tier_generation last_indexed_oid
set_tier_generation-SameOids f t n d list shard = rw (
    atomic_write_frame f (tier_generation_path t) (shard_oid_path list shard)
      (to_string n ++ 10 ∷ []) d (state_path-ne-oid (t ++ codes ".generation") list shard)
      (state_path-ne-oid (codes "." ++ ((t ++ codes ".generation") ++ codes ".tmp")) list shard))

pub bump_generation-SameOids : (f : Fault) (d : Disk) → SameOids d (bump_generation f d).1
unfolding bump_generation last_indexed_oid
bump_generation-SameOids f d list shard = elim (Result-cases (generation d)) [
  | inl (e, q) ↦ rw q refl
  | inr (n, q) ↦ rw q (
      rw (
        atomic_write_frame f generation_path (shard_oid_path list shard)
          (to_string (saturating_suc n) ++ 10 ∷ []) d
          (state_path-ne-oid (codes "generation") list shard)
          (state_path-ne-oid (codes ".generation.tmp") list shard)))
]
