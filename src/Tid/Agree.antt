-- ===== src/Tid/Agree.antt =====
-- The messages of one thread get one thread id, and where a root goes its own way.
use kernel_lore_mcp.Base.{
  ℕ, zero, suc, ◌≤◌, ◌<◌, ◌≡◌, refl, sym, ap, ◌∙◌, inl, inr, false, List, [], ◌∷◌, length, arith,
  if◌then◌else◌, none, some, unwrap_or, Option-cases, All, All-weaken,
}
use mathlib.Core.Option.{some-injective}
use kernel_lore_mcp.Text.{Text, text_eq, text_eq-cases}
use kernel_lore_mcp.Tid.Defs.{LiteRow, member, up, next_up, climb, by_subject, resolve_tid}
use kernel_lore_mcp.Tid.Climb.{climb_step, climb_stop, climb_root}

-- `r` is the root above `a`: no message of the corpus is its parent.
pub data Root (rows : List LiteRow) : Text → Text → Type 0 where
  top : {a b : Text} → up rows a ≡ none → a ≡ b → Root rows a b
  above : {a b p : Text} → up rows a ≡ some p → Root rows p b → Root rows a b

-- No message is its own ancestor: every parent has a smaller rank, such as an earlier date.
pub record IsAcyclic (rows : List LiteRow) : Type 0 where
  pub rank : Text → ℕ
  pub falls : (a p : Text) → up rows a ≡ some p → rank p < rank a

Root-unique : (rows : List LiteRow) (a r s : Text) → Root rows a r → Root rows a s → r ≡ s
Root-unique rows a r s (top u e) (top v f) = sym e ∙ f
Root-unique rows a r s (top u e) (above v t) = absurd (cc)
Root-unique rows a r s (above u t) (top v f) = absurd (cc)
Root-unique rows a r s (above {p = p} u t) (above {p = q} v w) =
    let e : p ≡ q = some-injective p q (sym u ∙ v) in Root-unique rows p r s t (rw e w)

module _ (rows : List LiteRow) (acyclic : IsAcyclic rows) where
  open acyclic use {rank, falls}

  not-member : (p : Text) (v : List Text) → All (λ w. rank p < rank w) v → member p v ≡ false
  not-member p [] h = refl
  not-member p (w ∷ v) h = elim (text_eq-cases w p) [
    | inl (_, q) ↦ absurd (omega (arith, ap rank q, h.0))
    | inr (n, _) ↦ rw n (not-member p v h.1)
  ]

  next_up_acyclic :
      (v : List Text) (c : Text) → All (λ w. rank c ≤ rank w) v → next_up rows v c ≡ up rows c
  next_up_acyclic v c h = elim (Option-cases (up rows c)) [
    | inl e ↦ unfold next_up in rw e
    | inr (p, e) ↦
        let below =
          All-weaken (λ w. rank c ≤ rank w) (λ w. rank p < rank w)
            (λ w k. omega (arith, falls c p e)) v h in
        let fresh = not-member p v below in unfold next_up in rw (e, fresh)
  ]

  climb-Root :
      (f : ℕ) (v : List Text) (c r : Text)
      → All (λ w. rank c ≤ rank w) v
      → climb f rows v c ≡ some r
      → Root rows c r
  climb-Root zero v c r h e = absurd (unfold climb in cc)
  climb-Root (suc f) v c r h e = elim (Option-cases (up rows c)) [
    | inl n ↦
        top n (some-injective c r (sym (climb_stop f rows v c (next_up_acyclic v c h ∙ n)) ∙ e))
    | inr (p, u) ↦
        let below =
          All-weaken (λ w. rank c ≤ rank w) (λ w. rank p ≤ rank w)
            (λ w k. omega (arith, falls c p u)) v h in
        above u (
          climb-Root f (p ∷ v) p r (omega arith, below)
            (sym (climb_step f rows v c p (next_up_acyclic v c h ∙ u)) ∙ e))
  ]

  -- In a corpus with no cycle of parents, a message below the root of its thread gets that root as
  -- its thread id, and a root gets what the search by subject finds, or else itself.
  pub resolve_tid-Root :
      (row : LiteRow) (r : Text)
      → Root rows row.message_id r
      → resolve_tid rows row
        ≡ (if text_eq r row.message_id then unwrap_or row.message_id (by_subject rows row) else r)
  resolve_tid-Root row r root =
      let mid = row.message_id in
      let (s, e, _) = climb_root rows mid in
      let same : s ≡ r =
        Root-unique rows mid s r
          (climb-Root (suc (length rows)) (mid ∷ []) mid s (omega arith, tt) e) root in
      unfold resolve_tid in rw (e, same) (ground arith)
