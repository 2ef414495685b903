-- ===== src/Router/Rank/Merge.antt =====
-- What `rrf_merge` makes of the rows that the tiers return.
use kernel_lore_mcp.Base.{
  ℕ, suc, ◌≡◌, ◌≢◌, refl, sym, ap, ◌∙◌, ◌⊎◌, inl, inr, ◌↔◌, List, [], ◌∷◌, IsIn, Option, none, some,
  subst,
}
use kernel_lore_mcp.Text.{Text, text_eq-cases}
use kernel_lore_mcp.Text.Distinct.{IsDistinct, IsIn-push_new}
use kernel_lore_mcp.Dict.{Dict, lookup, lookup-insert}
use kernel_lore_mcp.Dict.Keys.{keys, insert-IsDistinct}
use kernel_lore_mcp.Reader.{MessageRow}
use kernel_lore_mcp.Router.Rank.Defs.{
  Machine, RankedHit, is_exact, entry, add_row, add_rows, add_tiers,
}

-- which tier has which row
abbrev pub Rows : Type 1
Rows = Text → MessageRow → Type 0

-- the rows of the tiers' results
abbrev pub In : Dict (List MessageRow) → Rows
In tiers tier r = (rows : List MessageRow) × IsIn (tier, rows) tiers × IsIn r rows

-- A row with that message id is in that tier.
abbrev pub HasMessage : Rows → Text → Text → Type 0
HasMessage S k tier = (r : MessageRow) × S tier r × (r.message_id ≡ k)

-- A hit is a row of a tier. It names the tiers that have its message, and no others.
abbrev pub IsHit : {F : Type 0} → Rows → RankedHit F → Type 0
IsHit S h =
    ((tier : Text) × S tier h.row)
    × ((tier : Text) → IsIn tier h.tier_provenance ↔ HasMessage S h.row.message_id tier)
    × (h.is_exact_match ≡ is_exact h.tier_provenance)

abbrev pub message_id_of : {F : Type 0} → RankedHit F → Text
message_id_of h = h.row.message_id

-- a relation that holds of the same rows
abbrev pub Same : Rows → Rows → Type 0
Same S T = (tier : Text) (r : MessageRow) → S tier r ↔ T tier r

HasMessage-Same :
    (S T : Rows) → Same S T → (k tier : Text) → HasMessage S k tier ↔ HasMessage T k tier
HasMessage-Same S T f k tier = (
  λ h. let (r, s, e) = h in (r, (f tier r).0 s, e),
  λ h. let (r, s, e) = h in (r, (f tier r).1 s, e),
)

pub IsHit-Same : {F : Type 0} (S T : Rows) → Same S T → (h : RankedHit F) → IsHit S h → IsHit T h
IsHit-Same S T f h ((t, s), d, e) = (
  (t, (f t h.row).0 s),
  λ tier. (
    λ i. (HasMessage-Same S T f h.row.message_id tier).0 ((d tier).0 i),
    λ k. (d tier).1 ((HasMessage-Same S T f h.row.message_id tier).1 k),
  ),
  e,
)

-- A `HashMap` gives each of its entries once, in whichever order.
abbrev pub IsOrder : {V : Type 0} → (Dict V → Dict V) → Type 0
IsOrder {V} order =
    ((d : Dict V) (e : Text × V) → IsIn e (order d) ↔ IsIn e d)
    × ((d : Dict V) → IsDistinct (keys d) → IsDistinct (keys (order d)))

module _ {F : Type 0} (m : Machine F) where
  abbrev pub Entry : Type 0
  Entry = MessageRow × F × List Text

  -- what is stored under a message id
  abbrev pub Describes : Rows → Text → Option Entry → Type 0
  Describes S k none = (tier : Text) → HasMessage S k tier → ⊥
  Describes S k (some (row, score, prov)) =
      (row.message_id ≡ k)
      × ((tier : Text) × S tier row)
      × ((tier : Text) → IsIn tier prov ↔ HasMessage S k tier)

  abbrev With : Rows → Text → (MessageRow → Type 0) → Rows
  With S t P = λ tier r. S tier r ⊎ ((t ≡ tier) × P r)

  module _ (S : Rows) (t : Text) (rank : ℕ) (row : MessageRow) where
    Describes-entry :
        (o : Option Entry)
        → Describes S row.message_id o
        → Describes (With S t (λ r. row ≡ r)) row.message_id (some (entry m t rank row o))
    Describes-entry none d = (
      refl,
      (t, inr (refl, refl)),
      λ tier. (
        λ i. elim i [ inl q ↦ (row, inr (q, refl), refl) | inr z ↦ elim z [ ] ],
        λ h. let (r, s, e) = h in elim s [ inl a ↦ absurd (d tier (r, a, e)) | inr (q, _) ↦ inl q ],
      ),
    )
    Describes-entry (some (r0, score, prov)) (e0, (t0, s0), d) = (
      e0,
      (t0, inl s0),
      λ tier.
          let (f, g) = IsIn-push_new tier t prov in
          (
            λ i. elim (f i) [
              | inl j ↦ let (r, s, e) = (d tier).0 j in (r, inl s, e)
              | inr q ↦ (row, inr (q, refl), refl)
            ],
            λ h.
                let (r, s, e) = h in
                elim s [ inl a ↦ g (inl ((d tier).1 (r, a, e))) | inr (q, _) ↦ g (inr q) ],
          ),
    )

    old_only :
        (k : Text)
        → row.message_id ≢ k
        → (tier : Text) → HasMessage (With S t (λ r. row ≡ r)) k tier
        → HasMessage S k tier
    old_only k n tier (r, inl a, e) = (r, a, e)
    old_only k n tier (r, inr (_, q), e) = absurd (n (ap (λ z. z.message_id) q ∙ e))

    Describes-other :
        (k : Text)
        → row.message_id ≢ k
        → (o : Option Entry) → Describes S k o
        → Describes (With S t (λ r. row ≡ r)) k o
    Describes-other k n none d = λ tier h. d tier (old_only k n tier h)
    Describes-other k n (some (r0, score, prov)) (e0, (t0, s0), d) = (
      e0,
      (t0, inl s0),
      λ tier. (
        λ i. let (r, s, e) = (d tier).0 i in (r, inl s, e),
        λ h. (d tier).1 (old_only k n tier h),
      ),
    )

  abbrev pub Collects : Rows → Dict Entry → Type 0
  Collects S acc = IsDistinct (keys acc) × ((k : Text) → Describes S k (lookup k acc))

  Collects-add_row :
      (S : Rows) (t : Text) (rank : ℕ) (row : MessageRow) (acc : Dict Entry)
      → Collects S acc
      → Collects (With S t (λ r. row ≡ r)) (add_row m t rank row acc)
  Collects-add_row S t rank row acc (d, c) =
      let e = entry m t rank row (lookup row.message_id acc) in
      (
        insert-IsDistinct row.message_id e acc d,
        λ k.
            subst (Describes (With S t (λ r. row ≡ r)) k)
              (sym (lookup-insert row.message_id k e acc))
              (elim (text_eq-cases row.message_id k) [
                | inl (b, q) ↦ rw b (
                    subst (λ z. Describes (With S t (λ r. row ≡ r)) z (some e)) q
                      (Describes-entry S t rank row (lookup row.message_id acc) (c row.message_id)))
                | inr (b, n) ↦ rw b (Describes-other S t rank row k n (lookup k acc) (c k))
              ]),
      )

  Describes-Same :
      (S T : Rows) → Same S T → (k : Text) (o : Option Entry) → Describes S k o → Describes T k o
  Describes-Same S T f k none d = λ tier h. d tier ((HasMessage-Same S T f k tier).1 h)
  Describes-Same S T f k (some (row, score, prov)) (e, (t, s), d) = (
    e,
    (t, (f t row).0 s),
    λ tier. (
      λ i. (HasMessage-Same S T f k tier).0 ((d tier).0 i),
      λ h. (d tier).1 ((HasMessage-Same S T f k tier).1 h),
    ),
  )

  pub Collects-Same : (S T : Rows) → Same S T → (acc : Dict Entry) → Collects S acc → Collects T acc
  Collects-Same S T f acc (d, c) = (d, λ k. Describes-Same S T f k (lookup k acc) (c k))

  Collects-add_rows :
      (S : Rows) (t : Text) (rank : ℕ) (rows : List MessageRow) (acc : Dict Entry)
      → Collects S acc
      → Collects (With S t (λ r. IsIn r rows)) (add_rows m t rank rows acc)
  unfolding add_rows
  Collects-add_rows S t rank [] acc c =
      Collects-Same S (With S t (λ r. IsIn r []))
        (λ tier r. (λ s. inl s, λ s. elim s [ inl a ↦ a | inr (_, z) ↦ elim z [ ] ])) acc c
  Collects-add_rows S t rank (row ∷ rows) acc c =
      Collects-Same (With (With S t (λ r. row ≡ r)) t (λ r. IsIn r rows))
        (With S t (λ r. IsIn r (row ∷ rows)))
        (λ tier r. (
          λ s. elim s [
            | inl (inl a) ↦ inl a
            | inl (inr (q, e)) ↦ inr (q, inl e)
            | inr (q, i) ↦ inr (q, inr i)
          ],
          λ s. elim s [
            | inl a ↦ inl (inl a)
            | inr (q, inl e) ↦ inl (inr (q, e))
            | inr (q, inr i) ↦ inr (q, i)
          ],
        ))
        (add_rows m t (suc rank) rows (add_row m t rank row acc))
        (Collects-add_rows (With S t (λ r. row ≡ r)) t (suc rank) rows (add_row m t rank row acc)
          (Collects-add_row S t rank row acc c))

  pub Collects-add_tiers :
      (S : Rows) (tiers : Dict (List MessageRow)) (acc : Dict Entry)
      → Collects S acc
      → Collects (λ tier r. S tier r ⊎ In tiers tier r) (add_tiers m tiers acc)
  unfolding add_tiers
  Collects-add_tiers S [] acc c =
      Collects-Same S (λ tier r. S tier r ⊎ In [] tier r)
        (λ tier r. (λ s. inl s, λ s. elim s [ inl a ↦ a | inr (_, z, _) ↦ elim z [ ] ])) acc c
  Collects-add_tiers S ((t, rows) ∷ tiers) acc c =
      let S' = With S t (λ r. IsIn r rows) in
      Collects-Same (λ tier r. S' tier r ⊎ In tiers tier r)
        (λ tier r. S tier r ⊎ In ((t, rows) ∷ tiers) tier r)
        (λ tier r. (
          λ s. elim s [
            | inl (inl a) ↦ inl a
            | inl (inr (q, i)) ↦ inr (rows, inl (ap (λ z. (z, rows)) q), i)
            | inr (rs, j, i) ↦ inr (rs, inr j, i)
          ],
          λ s. elim s [
            | inl a ↦ inl (inl a)
            | inr (rs, inl q, i) ↦
                inl (inr (ap (λ z. z.0) q, subst (λ z. IsIn r z) (sym (ap (λ z. z.1) q)) i))
            | inr (rs, inr j, i) ↦ inr (rs, j, i)
          ],
        ))
        (add_tiers m tiers (add_rows m t 0 rows acc))
        (Collects-add_tiers S' tiers (add_rows m t 0 rows acc) (Collects-add_rows S t 0 rows acc c))
