-- ===== src/Tests/Head.antt =====
-- src/ingest.rs on a repository with an unborn head, a local branch and a fetched one.
use kernel_lore_mcp.Base.{◌≡◌, refl, List, [], ◌∷◌, if◌then◌else◌, none, some, sort_by}
use kernel_lore_mcp.Error.{ok, err, gix}
use kernel_lore_mcp.Text.{
  codes, text_eq, text_lt, starts_with, strip_prefix, strip_suffix, split_once,
}
use kernel_lore_mcp.Ingest.Head.{
  Reference, Refs, HeadCandidate, local_head_ref_for, rank_for_head_fallback, push_ref_candidate,
  push_all_refs, candidates, fallback_head_id_from_refs, resolve_walk_head_id,
}
use kernel_lore_mcp.Ingest.Head.Best.{IsBest, resolve_walk_head_id-IsBest}

abbrev fix : Reference
fix = record {
  name = some (codes "refs/heads/fix");
  target = some (codes "aa");
  symbolic_target = none;
}

abbrev trunk : Reference
trunk = record {
  name = some (codes "refs/remotes/origin/trunk");
  target = some (codes "bb");
  symbolic_target = none;
}

abbrev origin_head : Reference
origin_head = record {
  name = some (codes "refs/remotes/origin/HEAD");
  target = none;
  symbolic_target = some (codes "refs/remotes/origin/trunk");
}

abbrev refs : Refs
refs = record {
  open_bare = ok tt;
  find_reference = λ name.
      if text_eq name (codes "refs/remotes/origin/HEAD")
      then some origin_head
      else if text_eq name (codes "refs/remotes/origin/trunk")
      then some trunk
      else none;
  references = ok (ok fix ∷ ok origin_head ∷ ok trunk ∷ []);
  git2_oid_to_gix = λ oid. ok oid;
}

trunk_found : resolve_walk_head_id refs (err gix) ≡ ok (codes "bb")
unfolding resolve_walk_head_id fallback_head_id_from_refs candidates push_all_refs
    push_ref_candidate local_head_ref_for rank_for_head_fallback text_eq text_lt starts_with
    strip_prefix strip_suffix split_once sort_by
trunk_found = refl

resolve_walk_head_id-IsBest_example :
    (cs : List HeadCandidate) × (candidates refs ≡ ok cs) × IsBest refs cs (codes "bb")
resolve_walk_head_id-IsBest_example = resolve_walk_head_id-IsBest refs gix (codes "bb") trunk_found
