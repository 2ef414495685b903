-- ===== src/Tid/Climb.antt =====
-- The climb of src/tid.rs ends, and ends at an ancestor that is in the corpus.
use kernel_lore_mcp.Base.{
  ℕ, zero, suc, ◌+◌, ◌≤◌, ◌<◌, ◌≡◌, sym, ◌∙◌, ◌⊎◌, inl, inr, true, false, List, [], ◌∷◌, map,
  length, arith, if◌then◌else◌, none, some, Option-cases, IsIn,
}
use mathlib.Core.Option.{some-injective}
use kernel_lore_mcp.Text.{Text, text_eq_iff, text_eq_refl}
use kernel_lore_mcp.Tid.Defs.{LiteRow, by_mid, has_mid, member, up, next_up, climb}

-- How many rows have a message id that was not visited.
unvisited : List LiteRow → List Text → ℕ
unvisited [] v = 0
unvisited (r ∷ rs) v = (if member r.message_id v then 0 else 1) + unvisited rs v

unvisited-le : (rows : List LiteRow) (v : List Text) → unvisited rows v ≤ length rows
unfolding unvisited
unvisited-le [] v = omega arith
unvisited-le (r ∷ rs) v = ground (arith, unvisited-le rs v)

unvisited-cons :
    (p : Text) (rows : List LiteRow) (v : List Text) → unvisited rows (p ∷ v) ≤ unvisited rows v
unfolding unvisited
unvisited-cons p [] v = omega arith
unvisited-cons p (r ∷ rs) v = ground (arith, unvisited-cons p rs v)

has_mid-cons :
    (r : LiteRow) (rs : List LiteRow) (p : Text)
    → has_mid (r ∷ rs) p ≡ true
    → (has_mid rs p ≡ true) ⊎ (r.message_id ≡ p)
unfolding has_mid by_mid
has_mid-cons r rs p h = ground (arith, text_eq_iff r.message_id p)

no_row-has_mid : {A : Type 0} (p : Text) → has_mid [] p ≡ true → A
unfolding has_mid by_mid
no_row-has_mid p h = absurd (cc)

unvisited-lt_tail :
    (p : Text) (r : LiteRow) (rs : List LiteRow) (v : List Text)
    → unvisited rs (p ∷ v) < unvisited rs v
    → unvisited (r ∷ rs) (p ∷ v) < unvisited (r ∷ rs) v
unfolding unvisited
unvisited-lt_tail p r rs v h = ground arith

unvisited-lt_head :
    (p : Text) (r : LiteRow) (rs : List LiteRow) (v : List Text)
    → r.message_id ≡ p
    → member p v ≡ false
    → unvisited (r ∷ rs) (p ∷ v) < unvisited (r ∷ rs) v
unfolding unvisited
unvisited-lt_head p r rs v e m = rw (e, text_eq_refl p, m) (omega (arith, unvisited-cons p rs v))

unvisited-lt :
    (p : Text) (rows : List LiteRow) (v : List Text)
    → has_mid rows p ≡ true
    → member p v ≡ false
    → unvisited rows (p ∷ v) < unvisited rows v
unvisited-lt p [] v h m = no_row-has_mid p h
unvisited-lt p (r ∷ rs) v h m = elim (has_mid-cons r rs p h) [
  | inl i ↦ unvisited-lt_tail p r rs v (unvisited-lt p rs v i m)
  | inr e ↦ unvisited-lt_head p r rs v e m
]

-- The corpus has a row with that message id.
pub has_mid-IsIn :
    (rows : List LiteRow) (p : Text) → has_mid rows p ≡ true → IsIn p (map (λ r. r.message_id) rows)
has_mid-IsIn [] p h = no_row-has_mid p h
has_mid-IsIn (r ∷ rs) p h = elim (has_mid-cons r rs p h) [
  | inl i ↦ inr (has_mid-IsIn rs p i)
  | inr e ↦ inl e
]

pub up-has_mid : (rows : List LiteRow) (c p : Text) → up rows c ≡ some p → has_mid rows p ≡ true
unfolding up
up-has_mid rows c p h = ground arith

-- The next message is the parent, and was not visited.
pub next_up-some :
    (rows : List LiteRow) (v : List Text) (c p : Text)
    → next_up rows v c ≡ some p
    → (up rows c ≡ some p) × (member p v ≡ false)
unfolding next_up
next_up-some rows v c p h = ground arith

pub climb_step :
    (f : ℕ) (rows : List LiteRow) (v : List Text) (c p : Text)
    → next_up rows v c ≡ some p
    → climb (suc f) rows v c ≡ climb f rows (p ∷ v) p
unfolding climb
climb_step f rows v c p h = rw (h, climb)

pub climb_stop :
    (f : ℕ) (rows : List LiteRow) (v : List Text) (c : Text)
    → next_up rows v c ≡ none
    → climb (suc f) rows v c ≡ some c
unfolding climb
climb_stop f rows v c h = rw (h, climb)

-- With more fuel than unvisited rows the climb returns, also where the parents form a cycle.
climb_total :
    (f : ℕ) (rows : List LiteRow) (v : List Text) (c : Text)
    → unvisited rows v < f
    → (r : Text) × (climb f rows v c ≡ some r)
climb_total zero rows v c h = elim h [ ]
climb_total (suc f) rows v c h = elim (Option-cases (next_up rows v c)) [
  | inl e ↦ (c, climb_stop f rows v c e)
  | inr (p, e) ↦
      let (u, m) = next_up-some rows v c p e in
      let (r, q) =
        climb_total f rows (p ∷ v) p
          (omega (arith, unvisited-lt p rows v (up-has_mid rows c p u) m)) in
      (r, climb_step f rows v c p e ∙ q)
]

-- One message is reached from another by going from message to parent, inside the corpus.
pub data Ancestor (rows : List LiteRow) : Text → Text → Type 0 where
  here : {a b : Text} → a ≡ b → Ancestor rows a b
  above : {a b p : Text} → up rows a ≡ some p → Ancestor rows p b → Ancestor rows a b

pub climb-Ancestor :
    (f : ℕ) (rows : List LiteRow) (v : List Text) (c r : Text)
    → climb f rows v c ≡ some r
    → Ancestor rows c r
climb-Ancestor zero rows v c r h = absurd (unfold climb in cc)
climb-Ancestor (suc f) rows v c r h = elim (Option-cases (next_up rows v c)) [
  | inl e ↦ here (some-injective c r (sym (climb_stop f rows v c e) ∙ h))
  | inr (p, e) ↦
      above ((next_up-some rows v c p e).0)
        (climb-Ancestor f rows (p ∷ v) p r (sym (climb_step f rows v c p e) ∙ h))
]

pub Ancestor-IsIn :
    (rows : List LiteRow) (a b : Text)
    → Ancestor rows a b
    → IsIn a (map (λ r. r.message_id) rows)
    → IsIn b (map (λ r. r.message_id) rows)
Ancestor-IsIn rows a b (here e) i = rw e at i
Ancestor-IsIn rows a b (above {p = p} u t) i =
    Ancestor-IsIn rows p b t (has_mid-IsIn rows p (up-has_mid rows a p u))

-- The loop of `resolve_tid_lite`, on the fuel that the model gives it, returns an ancestor of the
-- row's message that is in the corpus.
pub climb_root :
    (rows : List LiteRow) (mid : Text)
    → (r : Text) × (climb (suc (length rows)) rows (mid ∷ []) mid ≡ some r) × Ancestor rows mid r
climb_root rows mid =
    let (r, e) =
      climb_total (suc (length rows)) rows (mid ∷ []) mid
        (omega (arith, unvisited-le rows (mid ∷ []))) in
    (r, e, climb-Ancestor (suc (length rows)) rows (mid ∷ []) mid r e)
