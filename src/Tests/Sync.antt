-- ===== src/Tests/Sync.antt =====
-- src/sync.rs on a small manifest, and on a disk that holds nothing or one repository.
use kernel_lore_mcp.Base.{◌≡◌, refl, Bool, true, false, [], ◌∷◌, none, ◌↔◌, IsIn}
use kernel_lore_mcp.Text.{Text, codes, text_eq, trim_start_matches, trim_end_matches}
use kernel_lore_mcp.Dict.{lookup}
use kernel_lore_mcp.Error.{ok}
use kernel_lore_mcp.Sync.Glob.{fnmatch, path_matches, IsAllowed, Matches, fnmatch_iff}
use kernel_lore_mcp.Sync.Manifest.{
  ShardMeta, Manifest, IsChanged, is_same, diff_manifest, diff_manifest_iff,
}
use kernel_lore_mcp.Sync.Fetch.{
  cloned, Git, IsReport, shard_url, before_last_slash, shard_local_path, parent, clone_shard,
  fetch_shard, fetch_shard-IsReport,
}

abbrev shard : Text
shard = codes "/lkml/git/0.git"

abbrev other : Text
other = codes "/netdev/git/0.git"

abbrev all_lkml : Text
all_lkml = codes "/lkml/*"

abbrev meta : Text → ShardMeta
meta f = record { fingerprint = f; modified = none; owner = none; reference = none }

abbrev remote : Manifest
remote = (shard, meta (codes "aa")) ∷ (other, meta (codes "bb")) ∷ []

star_matches : fnmatch all_lkml shard ≡ true
unfolding fnmatch
star_matches = refl

diff_first : diff_manifest remote [] (all_lkml ∷ []) [] ≡ shard ∷ []
unfolding diff_manifest path_matches fnmatch is_same lookup
diff_first = refl

fnmatch_iff_example : (fnmatch all_lkml shard ≡ true) ↔ Matches all_lkml shard
fnmatch_iff_example = fnmatch_iff all_lkml shard

-- the local manifest has an older fingerprint of the shard
abbrev outdated : Manifest
outdated = (shard, meta (codes "a0")) ∷ (other, meta (codes "bb")) ∷ []

update_found : diff_manifest remote outdated [] [] ≡ shard ∷ []
unfolding diff_manifest path_matches is_same lookup text_eq
update_found = refl

diff_manifest_iff_example : IsIn shard (diff_manifest remote outdated (all_lkml ∷ []) []) ↔ (
    (m : ShardMeta) × IsIn (shard, m) remote
    × IsAllowed (all_lkml ∷ []) [] shard
    × IsChanged outdated shard m)
diff_manifest_iff_example = diff_manifest_iff remote outdated (all_lkml ∷ []) [] shard

-- a disk is whether the repository is there
abbrev git : Git Bool
git = record {
  exists = λ w p. w;
  is_dir = λ w p. w;
  usable = λ w p. w;
  create_dir_all = λ p w. (w, ok tt);
  remove_dir_all = λ p w. (false, ok tt);
  remove_file = λ p w. (false, ok tt);
  clone_bare = λ url p w. (true, ok tt);
  fetch = λ url p w. (w, ok 1);
}

abbrev manifest_url : Text
manifest_url = codes "https://lore.kernel.org/manifest.js.gz"

first_fetch : (fetch_shard git (codes "/data") shard manifest_url false).1 ≡ ok cloned
unfolding fetch_shard clone_shard parent before_last_slash trim_end_matches shard_local_path
    trim_start_matches
first_fetch = refl

fetch_shard-IsReport_example :
    IsReport git
      (shard_url manifest_url shard)
      (shard_local_path (codes "/data") shard)
      true
      (fetch_shard git (codes "/data") shard manifest_url true)
fetch_shard-IsReport_example = fetch_shard-IsReport git (codes "/data") shard manifest_url true
