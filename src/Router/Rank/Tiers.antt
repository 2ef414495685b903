-- ===== src/Router/Rank/Tiers.antt =====
-- The results of the tiers, by the name of the tier.
use kernel_lore_mcp.Base.{
  ◌≡◌, ◌≢◌, refl, sym, ap, ◌⊎◌, inl, inr, List, [], IsIn, Option, none, some, subst, true,
}
use mathlib.Core.Option.{some-injective}
use kernel_lore_mcp.Text.{Text, codes, text_eq, text_eq_iff}
use kernel_lore_mcp.Dict.{Dict, insert}
use kernel_lore_mcp.Dict.Keys.{keys, IsIn-insert_new}
use kernel_lore_mcp.Reader.{MessageRow}
use kernel_lore_mcp.Router.Rank.Defs.{insert_some, tier_results}
use kernel_lore_mcp.Router.Rank.Merge.{In, Same}

-- what a tier that ran has returned
abbrev pub Has : Option (List MessageRow) → MessageRow → Type 0
Has o r = (rows : List MessageRow) × (o ≡ some rows) × IsIn r rows

In-insert_some :
    (t : Text) (o : Option (List MessageRow)) (d : Dict (List MessageRow))
    → ¬ IsIn t (keys d)
    → Same (In (insert_some t o d)) (λ tier r. In d tier r ⊎ ((t ≡ tier) × Has o r))
In-insert_some t none d n tier r =
    (λ i. inl i, λ i. elim i [ inl j ↦ j | inr (_, (_, e, _)) ↦ absurd (cc) ])
In-insert_some t (some rows) d n tier r =
    let new = IsIn-insert_new t rows d n in
    (
      λ i.
          let (rs, j, k) = i in
          elim ((new (tier, rs)).0 j) [
            | inl q ↦
                inr (ap (λ z. z.0) q, (rows, refl, subst (λ z. IsIn r z) (sym (ap (λ z. z.1) q)) k))
            | inr j ↦ inl (rs, j, k)
          ],
      λ i. elim i [
        | inl (rs, j, k) ↦ (rs, (new (tier, rs)).1 (inr j), k)
        | inr (q, (rs, e, k)) ↦ (
          rows,
          (new (tier, rows)).1 (inl (ap (λ z. (z, rows)) q)),
          subst (λ z. IsIn r z) (sym (some-injective rows rs e)) k,
        )
      ],
    )

differ : (a b : Text) → text_eq a b ≢ true → ¬ (a ≡ b)
differ a b n q = n ((text_eq_iff a b).1 q)

trigram_new :
    (o : Option (List MessageRow))
    → ¬ IsIn (codes "trigram") (keys (insert_some (codes "metadata") o []))
unfolding insert text_eq
trigram_new none i = i
trigram_new (some rows) (inl q) = differ (codes "metadata") (codes "trigram") (λ e. absurd (cc)) q
trigram_new (some rows) (inr i) = i

bm25_new :
    (o u : Option (List MessageRow))
    → ¬ IsIn
        (codes "bm25")
        (keys (insert_some (codes "trigram") u (insert_some (codes "metadata") o [])))
unfolding insert text_eq
bm25_new none none i = i
bm25_new (some rows) none (inl q) = differ (codes "metadata") (codes "bm25") (λ e. absurd (cc)) q
bm25_new none (some rows) (inl q) = differ (codes "trigram") (codes "bm25") (λ e. absurd (cc)) q
bm25_new (some rows) (some rs) (inl q) =
    differ (codes "metadata") (codes "bm25") (λ e. absurd (cc)) q
bm25_new (some rows) (some rs) (inr (inl q)) =
    differ (codes "trigram") (codes "bm25") (λ e. absurd (cc)) q
bm25_new (some rows) none (inr i) = i
bm25_new none (some rows) (inr i) = i
bm25_new (some rows) (some rs) (inr (inr i)) = i

-- Each tier has the rows that it returned.
pub In-tier_results :
    (meta trigram bm25 : Option (List MessageRow))
    → Same (In (tier_results meta trigram bm25)) (λ tier r.
      ((codes "metadata" ≡ tier) × Has meta r)
      ⊎ ((codes "trigram" ≡ tier) × Has trigram r)
      ⊎ ((codes "bm25" ≡ tier) × Has bm25 r))
unfolding tier_results
In-tier_results meta trigram bm25 tier r =
    let a = In-insert_some (codes "metadata") meta [] (λ i. i) tier r in
    let b =
      In-insert_some (codes "trigram") trigram (insert_some (codes "metadata") meta [])
        (trigram_new meta) tier r in
    let c =
      In-insert_some (codes "bm25") bm25
        (insert_some (codes "trigram") trigram (insert_some (codes "metadata") meta []))
        (bm25_new meta trigram) tier r in
    (
      λ i. elim (c.0 i) [
        | inr h ↦ inr (inr h)
        | inl j ↦ elim (b.0 j) [
          | inr h ↦ inr (inl h)
          | inl k ↦ elim (a.0 k) [ inr h ↦ inl h | inl (_, z, _) ↦ elim z [ ] ]
        ]
      ],
      λ i. elim i [
        | inl h ↦ c.1 (inl (b.1 (inl (a.1 (inr h)))))
        | inr (inl h) ↦ c.1 (inl (b.1 (inr h)))
        | inr (inr h) ↦ c.1 (inr h)
      ],
    )
