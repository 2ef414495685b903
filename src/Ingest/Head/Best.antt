-- ===== src/Ingest/Head/Best.antt =====
-- The branch that is chosen when a head is unborn.
use kernel_lore_mcp.Base.{
  ◌≤◌, ◌≡◌, refl, sym, inl, true, false, List, [], ◌∷◌, IsIn, All, All-weaken, All-tabulate,
  All-lookup, some, sort_by, IsSorted, IsSorted-sort_by, IsIn-sort_by, IsIn-sort_by_inv, subst,
  arith,
}
use kernel_lore_mcp.Error.{Error, ok, err, ok-injective, >>=-eq-ok}
use kernel_lore_mcp.Text.{Text}
use kernel_lore_mcp.Text.Sorted.{text_lt_asym}
use kernel_lore_mcp.Ingest.Head.Defs.{
  Refs, HeadCandidate, candidates, is_before, bind, first, fallback_head_id_from_refs, or_unborn,
  resolve_walk_head_id,
}

module _ (r : Refs) where
  is_before_asym : (a b : HeadCandidate) → is_before r a b ≡ true → is_before r b a ≡ false
  is_before_asym a b h = ground (arith, text_lt_asym a.source_ref b.source_ref)

  not_before : (a b : HeadCandidate) → is_before r b a ≡ false → a.rank ≤ b.rank
  not_before a b h = ground arith

  first-least :
      (c : HeadCandidate) (cs : List HeadCandidate)
      → IsSorted (is_before r) (c ∷ cs)
      → All (λ d. c.rank ≤ d.rank) (c ∷ cs)
  first-least c [] s = (omega arith, tt)
  first-least c (d ∷ cs) s =
      let le = not_before c d s.0 in
      (
        omega arith,
        All-weaken (λ e. d.rank ≤ e.rank) (λ e. c.rank ≤ e.rank) (λ e h. omega (arith, le, h))
            (d ∷ cs) (first-least d cs s.1),
      )

  -- A branch of the candidates with that commit, and no candidate has a lower rank.
  abbrev pub IsBest : List HeadCandidate → Text → Type 0
  IsBest cs head = (c : HeadCandidate) × IsIn c cs × (c.oid ≡ head) × All (λ d. c.rank ≤ d.rank) cs

  picked :
      (cs sorted : List HeadCandidate) (head : Text)
      → sort_by (is_before r) cs ≡ sorted
      → or_unborn r (bind (first r sorted) (λ c. some (c.oid, c.repair_ref))) ≡ ok head
      → IsBest cs head
  picked cs [] head e h = absurd (cc)
  picked cs (c ∷ rest) head e h =
      let least =
        first-least c rest
          (subst (IsSorted (is_before r)) e (IsSorted-sort_by (is_before r) is_before_asym cs)) in
      (
        c,
        IsIn-sort_by (is_before r) c cs (subst (IsIn c) (sym e) (inl refl)),
        ok-injective c.oid head h,
        All-tabulate (λ d. c.rank ≤ d.rank) cs
            (λ d i.
              All-lookup (λ d. c.rank ≤ d.rank) (c ∷ rest) d least
                (subst (IsIn d) e (IsIn-sort_by_inv (is_before r) d cs i))),
      )

  -- When the head cannot be read and one is found all the same, it is the commit of a candidate
  -- branch, and no candidate has a lower rank.
  pub resolve_walk_head_id-IsBest :
      (e : Error) (head : Text)
      → resolve_walk_head_id r (err e) ≡ ok head
      → (cs : List HeadCandidate) × (candidates r ≡ ok cs) × IsBest cs head
  unfolding resolve_walk_head_id fallback_head_id_from_refs
  resolve_walk_head_id-IsBest e head h =
      let (found, p, q) = >>=-eq-ok (fallback_head_id_from_refs r) (or_unborn r) h in
      let (cs, a, b) = >>=-eq-ok (candidates r) _ p in
      (
        cs,
        a,
        picked cs (sort_by (is_before r) cs) head refl
            (subst (λ z. or_unborn r z ≡ ok head) (sym (ok-injective _ found b)) q),
      )
