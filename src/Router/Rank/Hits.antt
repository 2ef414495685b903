-- ===== src/Router/Rank/Hits.antt =====
-- The answers of `dispatch`.
use kernel_lore_mcp.Base.{
  ℕ, ◌*◌, ◌%◌, ◌≤◌, ◌≡◌, sym, ap, ◌∙◌, ◌⊎◌, inl, inr, Bool, true, List, [], ◌∷◌, length,
  length-take_le, take, retain, IsIn, All, All-take, All-tabulate, All-retain, All-retain_self,
  All-weaken, Option, none, some, subst,
}
use mathlib.Core.Option.{some-injective}
use kernel_lore_mcp.Error.{ok, >>=-eq-ok, ok-injective}
use kernel_lore_mcp.Text.{Text, codes}
use kernel_lore_mcp.Text.Keyed.{IsKeyed, IsKeyed-retain, IsKeyed-take}
use kernel_lore_mcp.Reader.{MessageRow, Reader}
use kernel_lore_mcp.Router.Defs.{ParsedQuery}
use kernel_lore_mcp.Router.Rank.Defs.{
  Machine, RankedHit, usize, in_list, has_sender, is_since, is_until, retain_if, post_filter,
  run_metadata, run_trigram, run_bm25, tier_results, rrf_merge, dispatch,
}
use kernel_lore_mcp.Router.Rank.Merge.{Rows, Same, IsHit, IsHit-Same, message_id_of, IsOrder, In}
use kernel_lore_mcp.Router.Rank.Tiers.{In-tier_results}
use kernel_lore_mcp.Router.Rank.Fused.{rrf_merge-IsHit}

module _ {F : Type 0} (m : Machine F) where
  -- a predicate of the query, if it has it
  abbrev Passes : {A : Type 0} → Option A → (A → MessageRow → Bool) → RankedHit F → Type 0
  Passes {A} o test h = (a : A) → o ≡ some a → test a h.row ≡ true

  -- The row passes each of the four predicates that the query has.
  abbrev pub IsAsked : ParsedQuery → RankedHit F → Type 0
  IsAsked p h =
      Passes p.list (in_list m) h
      × Passes p.from_addr (has_sender m) h
      × Passes p.since_unix_ns (is_since m) h
      × Passes p.until_unix_ns (is_until m) h

  retain_if-Passes :
      {A : Type 0} (o : Option A) (test : A → MessageRow → Bool) (hits : List (RankedHit F))
      → All (Passes o test) (retain_if m o test hits)
  retain_if-Passes none test hits = All-tabulate (Passes none test) hits (λ h i a e. absurd (cc))
  retain_if-Passes (some b) test hits =
      All-weaken (λ h. test b h.row ≡ true) (Passes (some b) test)
        (λ h t a e. subst (λ z. test z h.row ≡ true) (some-injective b a e) t)
        (retain (λ h. test b h.row) hits) (All-retain_self (λ h. test b h.row) hits)

  retain_if-All :
      (P : RankedHit F → Type 0) {A : Type 0} (o : Option A) (test : A → MessageRow → Bool)
      (hits : List (RankedHit F))
      → All P hits
      → All P (retain_if m o test hits)
  retain_if-All P none test hits d = d
  retain_if-All P (some a) test hits d = All-retain P (λ h. test a h.row) hits d

  retain_if-IsKeyed :
      {A : Type 0} (o : Option A) (test : A → MessageRow → Bool) (hits : List (RankedHit F))
      → IsKeyed message_id_of hits
      → IsKeyed message_id_of (retain_if m o test hits)
  retain_if-IsKeyed none test hits d = d
  retain_if-IsKeyed (some a) test hits d = IsKeyed-retain message_id_of (λ h. test a h.row) hits d

  All-both :
      (P Q : RankedHit F → Type 0) (hits : List (RankedHit F))
      → All P hits
      → All Q hits
      → All (λ h. P h × Q h) hits
  All-both P Q [] d e = tt
  All-both P Q (x ∷ xs) d e = ((d.0, e.0), All-both P Q xs d.1 e.1)

  post_filter-IsAsked :
      (p : ParsedQuery) (hits : List (RankedHit F)) → All (IsAsked p) (post_filter m p hits)
  unfolding post_filter
  post_filter-IsAsked p hits =
      let a = retain_if m p.list (in_list m) hits in
      let b = retain_if m p.from_addr (has_sender m) a in
      let c = retain_if m p.since_unix_ns (is_since m) b in
      let L = Passes p.list (in_list m) in
      let S = Passes p.from_addr (has_sender m) in
      let T = Passes p.since_unix_ns (is_since m) in
      let U = Passes p.until_unix_ns (is_until m) in
      let in_c =
        All-both L (λ h. S h × T h) c
          (retain_if-All L p.since_unix_ns (is_since m) b (
            retain_if-All L p.from_addr (has_sender m) a
              (retain_if-Passes p.list (in_list m) hits)))
          (All-both S T c
            (retain_if-All S p.since_unix_ns (is_since m) b
              (retain_if-Passes p.from_addr (has_sender m) a))
            (retain_if-Passes p.since_unix_ns (is_since m) b)) in
      let d = post_filter m p hits in
      All-weaken (λ h. (L h × (S h × T h)) × U h) (IsAsked p)
        (λ h k. let ((l, (s, t)), u) = k in (l, s, t, u)) d
        (All-both (λ h. L h × (S h × T h)) U d
          (retain_if-All (λ h. L h × (S h × T h)) p.until_unix_ns (is_until m) c in_c)
          (retain_if-Passes p.until_unix_ns (is_until m) c))

  post_filter-keeps :
      (P : RankedHit F → Type 0) (p : ParsedQuery) (hits : List (RankedHit F))
      → All P hits
      → All P (post_filter m p hits)
  unfolding post_filter
  post_filter-keeps P p hits d = retain_if-All P p.until_unix_ns (is_until m) _ (
      retain_if-All P p.since_unix_ns (is_since m) _
        (retain_if-All P p.from_addr (has_sender m) _ (retain_if-All P p.list (in_list m) hits d)))

  post_filter-IsKeyed :
      (p : ParsedQuery) (hits : List (RankedHit F))
      → IsKeyed message_id_of hits
      → IsKeyed message_id_of (post_filter m p hits)
  unfolding post_filter
  post_filter-IsKeyed p hits d = retain_if-IsKeyed p.until_unix_ns (is_until m) _ (
      retain_if-IsKeyed p.since_unix_ns (is_since m) _ (
        retain_if-IsKeyed p.from_addr (has_sender m) _
          (retain_if-IsKeyed p.list (in_list m) hits d)))

-- A tier that ran has returned that row.
abbrev pub Returned : {F : Type 0} → Reader F → ParsedQuery → ℕ → Rows
Returned reader p limit tier r =
    ((codes "metadata" ≡ tier)
      × (rows : List MessageRow) × (run_metadata reader p limit ≡ ok (some rows))
      × IsIn r rows)
    ⊎ ((codes "trigram" ≡ tier)
        × (rows : List MessageRow) × (run_trigram reader p limit ≡ ok (some rows))
        × IsIn r rows)
    ⊎ ((codes "bm25" ≡ tier)
        × (rows : List MessageRow) × (notes : List Text) × (run_bm25 reader p limit
            ≡ ok (some rows, notes))
        × IsIn r rows)

module _ {F : Type 0} (m : Machine F) (reader : Reader F) (p : ParsedQuery) (limit : ℕ) where
  -- the three steps of a dispatch that answers
  dispatch-steps :
      (hits : List (RankedHit F)) (notes : List Text)
      → dispatch m reader p limit ≡ ok (hits, notes)
      → (meta : Option (List MessageRow)) × (trigram : Option (List MessageRow)) × (bm25 : Option
          (List MessageRow))
        × (run_metadata reader p limit ≡ ok meta)
        × (run_trigram reader p limit ≡ ok trigram)
        × (run_bm25 reader p limit ≡ ok (bm25, notes))
        × (take limit
              (post_filter m p (rrf_merge m (tier_results meta trigram bm25) (limit * 2 % usize)))
            ≡ hits)
  unfolding dispatch
  dispatch-steps hits notes h =
      let (meta, a, h1) = >>=-eq-ok (run_metadata reader p limit) _ h in
      let (trigram, b, h2) = >>=-eq-ok (run_trigram reader p limit) _ h1 in
      let ((bm25, ns), c, h3) = >>=-eq-ok (run_bm25 reader p limit) _ h2 in
      let q = ok-injective _ _ h3 in
      (
        meta,
        trigram,
        bm25,
        a,
        b,
        subst (λ z. run_bm25 reader p limit ≡ ok (bm25, z)) (ap (λ z. z.1) q) c,
        ap (λ z. z.0) q,
      )

  -- A dispatch that answers has no more hits than asked for, each message once. Each hit is a row
  -- that a tier returned, names exactly the tiers that returned its message, and passes the list,
  -- sender and time predicates of the query. The hash maps give each entry once, in any order.
  pub dispatch-IsAsked :
      IsOrder m.tier_order
      → IsOrder m.hit_order
      → (hits : List (RankedHit F)) (notes : List Text)
      → dispatch m reader p limit ≡ ok (hits, notes)
      → (length hits ≤ limit)
        × IsKeyed message_id_of hits
        × All (IsHit (Returned reader p limit)) hits
        × All (IsAsked m p) hits
  dispatch-IsAsked ot oh hits notes h =
      let (meta, trigram, bm25, a, b, c, q) = dispatch-steps hits notes h in
      let tiers = tier_results meta trigram bm25 in
      let (i, k) = rrf_merge-IsHit m ot oh tiers (limit * 2 % usize) in
      let merged = rrf_merge m tiers (limit * 2 % usize) in
      let kept = post_filter m p merged in
      let S = Returned reader p limit in
      let same : Same (In tiers) S = λ tier r.
        let (f, g) = In-tier_results meta trigram bm25 tier r in
        (
          λ s. elim (f s) [
            | inl (e, (rows, o, j)) ↦ inl (e, rows, rw o at a, j)
            | inr (inl (e, (rows, o, j))) ↦ inr (inl (e, rows, rw o at b, j))
            | inr (inr (e, (rows, o, j))) ↦ inr (inr (e, rows, notes, rw o at c, j))
          ],
          λ s. g (elim s [
            | inl (e, rows, o, j) ↦ inl (e, (rows, ok-injective meta (some rows) (sym a ∙ o), j))
            | inr (inl (e, rows, o, j)) ↦
                inr (inl (e, (rows, ok-injective trigram (some rows) (sym b ∙ o), j)))
            | inr (inr (e, rows, ns, o, j)) ↦ inr (
                inr (
                  e,
                  (rows, ap (λ z. z.0) (ok-injective (bm25, notes) (some rows, ns) (sym c ∙ o)), j),
                ))
          ]),
        ) in
      subst
        (λ z. (length z ≤ limit) × IsKeyed message_id_of z × All (IsHit S) z × All (IsAsked m p) z)
        q
        (
          length-take_le limit kept,
          IsKeyed-take message_id_of limit kept (post_filter-IsKeyed m p merged k),
          All-take (IsHit S) limit kept (
              post_filter-keeps m (IsHit S) p merged (
                All-weaken (IsHit (In tiers)) (IsHit S) (λ h. IsHit-Same (In tiers) S same h) merged
                  i)),
          All-take (IsAsked m p) limit kept (post_filter-IsAsked m p merged),
        )
