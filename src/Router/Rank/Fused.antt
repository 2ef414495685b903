-- ===== src/Router/Rank/Fused.antt =====
-- The hits of `rrf_merge`.
use kernel_lore_mcp.Base.{
  ℕ, ◌≡◌, refl, sym, ap, ◌∙◌, ◌⊎◌, inl, inr, ◌↔◌, Bool, List, [], ◌∷◌, map, IsIn, IsIn-map_inv, All,
  All-take, All-tabulate, IsIn-sort_by, sort_by, some, subst,
}
use kernel_lore_mcp.Text.{Text}
use kernel_lore_mcp.Text.Distinct.{IsDistinct}
use kernel_lore_mcp.Text.Keyed.{IsKeyed, IsKeyed-sort_by, IsKeyed-take}
use kernel_lore_mcp.Dict.{Dict, lookup}
use kernel_lore_mcp.Dict.Keys.{keys, IsIn-lookup}
use kernel_lore_mcp.Reader.{MessageRow}
use kernel_lore_mcp.Router.Rank.Defs.{Machine, RankedHit, add_tiers, to_hit, rrf_merge}
use kernel_lore_mcp.Router.Rank.Merge.{
  Rows, HasMessage, IsHit, message_id_of, IsOrder, Describes, Collects, Collects-Same,
  Collects-add_tiers, In,
}

module _ {F : Type 0} (m : Machine F) where
  Collects-merged :
      IsOrder m.tier_order
      → (tiers : Dict (List MessageRow))
      → Collects m (In tiers) (add_tiers m (m.tier_order tiers) [])
  unfolding lookup
  Collects-merged (order, _) tiers =
      Collects-Same m (λ tier r. ⊥ ⊎ In (m.tier_order tiers) tier r) (In tiers)
        (λ tier r. (
          λ s. elim s [
            | inl z ↦ elim z [ ]
            | inr (rows, j, i) ↦ (rows, (order tiers (tier, rows)).0 j, i)
          ],
          λ s. let (rows, j, i) = s in inr (rows, (order tiers (tier, rows)).1 j, i),
        ))
        (add_tiers m (m.tier_order tiers) [])
        (Collects-add_tiers m (λ tier r. ⊥) (m.tier_order tiers) [] (tt, λ k tier h. h.1))

  module _ (S : Rows) (acc : Dict (MessageRow × F × List Text)) (c : Collects m S acc) where
    entry-described :
        (k : Text) (row : MessageRow) (score : F) (prov : List Text)
        → IsIn (k, (row, score, prov)) acc
        → Describes m S k (some (row, score, prov))
    entry-described k row score prov i =
        subst (Describes m S k) (IsIn-lookup k (row, score, prov) acc c.0 i) (c.1 k)

    to_hit-IsHit : (e : Text × (MessageRow × F × List Text)) → IsIn e acc → IsHit S (to_hit m e)
    to_hit-IsHit (k, (row, score, prov)) i =
        let (e, s, d) = entry-described k row score prov i in
        (s, subst (λ z. (tier : Text) → IsIn tier prov ↔ HasMessage S z tier) (sym e) d, refl)

    -- the message id of a hit is its key
    same_keys :
        (es : Dict (MessageRow × F × List Text))
        → ((e : Text × (MessageRow × F × List Text)) → IsIn e es → IsIn e acc)
        → map message_id_of (map (to_hit m) es) ≡ keys es
    same_keys [] f = refl
    same_keys ((k, (row, score, prov)) ∷ es) f =
        let (e, _, _) = entry-described k row score prov (f (k, (row, score, prov)) (inl refl)) in
        ap (λ z. z ∷ map message_id_of (map (to_hit m) es)) e
        ∙ ap (λ z. k ∷ z) (same_keys es (λ a i. f a (inr i)))

  pub rrf_merge-IsHit :
      IsOrder m.tier_order
      → IsOrder m.hit_order
      → (tiers : Dict (List MessageRow)) (limit : ℕ)
      → All (IsHit (In tiers)) (rrf_merge m tiers limit)
        × IsKeyed message_id_of (rrf_merge m tiers limit)
  unfolding rrf_merge
  rrf_merge-IsHit ot (oh, od) tiers limit =
      let acc = add_tiers m (m.tier_order tiers) [] in
      let gt : RankedHit F → RankedHit F → Bool = λ a b. m.gt a.fused_score b.fused_score in
      let hits = map (to_hit m) (m.hit_order acc) in
      let c = Collects-merged ot tiers in
      let keyed : IsKeyed message_id_of hits =
        subst IsDistinct
          (sym (same_keys (In tiers) acc c (m.hit_order acc) (λ e i. (oh acc e).0 i)))
          (od acc c.0) in
      (
        All-take (IsHit (In tiers)) limit (sort_by gt hits) (
            All-tabulate (IsHit (In tiers)) (sort_by gt hits) (λ h i.
              let (e, j, q) =
                IsIn-map_inv (to_hit m) h (m.hit_order acc) (IsIn-sort_by gt h hits i) in
              subst (IsHit (In tiers)) q (to_hit-IsHit (In tiers) acc c e ((oh acc e).0 j)))),
        IsKeyed-take message_id_of limit (sort_by gt hits)
            (IsKeyed-sort_by message_id_of gt hits keyed),
      )
