-- ===== src/Text/Parts.antt =====
-- A property of all characters of a text holds of all characters of its parts.
use kernel_lore_mcp.Base.{
  ℕ, ◌≡◌, ap, ◌⊎◌, inl, inr, Bool, false, List, [], ◌∷◌, ◌++◌, All, All-weaken, if◌then◌else◌,
  Bool-cases, Option, none, some, subst,
}
use mathlib.Core.Option.{some-injective}
use kernel_lore_mcp.Text.Chars.{
  Text, is_whitespace, trim_start_matches, trim_end_matches, trim_matches,
}
use kernel_lore_mcp.Text.Cut.{strip_prefix, strip_prefix-some, split_once_at}
use kernel_lore_mcp.Text.Lines.{push_first, split, nonempty, split_whitespace}

push_first-All :
    (R : ℕ → Type 0) (c : ℕ) (ws : List Text) → R c → All (All R) ws → All (All R) (push_first c ws)
push_first-All R c [] r a = ((r, tt), tt)
push_first-All R c (w ∷ ws) r a = ((r, a.0), a.1)

module _ (Q : ℕ → Type 0) (p : ℕ → Bool) where
  All-trim_start : (s : Text) → All Q s → All Q (trim_start_matches p s)
  unfolding trim_start_matches
  All-trim_start [] a = tt
  All-trim_start (c ∷ s) a = elim (Bool-cases (p c)) [
    | inl e ↦ rw e (All-trim_start s a.1)
    | inr e ↦ rw e a
  ]

  All-trim_end : (s : Text) → All Q s → All Q (trim_end_matches p s)
  unfolding trim_end_matches
  All-trim_end [] a = tt
  All-trim_end (c ∷ s) a = end_step (trim_end_matches p s) a.0 (All-trim_end s a.1)
    where
      end_step :
          (r : Text)
          → Q c
          → All Q r
          → All Q (elim r [ [] ↦ if p c then [] else c ∷ [] | d ∷ t ↦ c ∷ d ∷ t ])
      end_step [] q b = elim (Bool-cases (p c)) [ inl e ↦ rw e tt | inr e ↦ rw e (q, tt) ]
      end_step (d ∷ t) q b = (q, b)

  pub All-trim_matches : (s : Text) → All Q s → All Q (trim_matches p s)
  unfolding trim_matches
  All-trim_matches s a = All-trim_end (trim_start_matches p s) (All-trim_start s a)

  -- the pieces of a split also have no character that passes the test
  pub All-split : (s : Text) → All Q s → All (All (λ c. Q c × (p c ≡ false))) (split p s)
  unfolding split
  All-split [] a = (tt, tt)
  All-split (c ∷ s) a = elim (Bool-cases (p c)) [
    | inl e ↦ rw e (tt, All-split s a.1)
    | inr e ↦
        rw e (push_first-All (λ d. Q d × (p d ≡ false)) c (split p s) (a.0, e) (All-split s a.1))
  ]

nonempty-All : (P : Text → Type 0) (ws : List Text) → All P ws → All P (nonempty ws)
unfolding nonempty
nonempty-All P [] a = tt
nonempty-All P ([] ∷ r) a = nonempty-All P r a.1
nonempty-All P ((c ∷ s) ∷ r) a = (a.0, nonempty-All P r a.1)

-- The words of a text have no whitespace.
pub split_whitespace-All :
    (s : Text) → All (All (λ c. is_whitespace c ≡ false)) (split_whitespace s)
unfolding split_whitespace
split_whitespace-All s = nonempty-All (All (λ c. is_whitespace c ≡ false)) (split is_whitespace s) (
    All-weaken (All (λ c. Unit {0} × (is_whitespace c ≡ false)))
      (All (λ c. is_whitespace c ≡ false))
      (λ w a.
        All-weaken (λ c. Unit {0} × (is_whitespace c ≡ false)) (λ c. is_whitespace c ≡ false)
          (λ c q. q.1) w a)
      (split is_whitespace s) (All-split (λ c. Unit {0}) is_whitespace s (everywhere s)))
  where
    everywhere : (t : Text) → All (λ c. Unit {0}) t
    everywhere [] = tt
    everywhere (c ∷ t) = (tt, everywhere t)

All-append_right : (Q : ℕ → Type 0) (xs ys : Text) → All Q (xs ++ ys) → All Q ys
All-append_right Q [] ys a = a
All-append_right Q (x ∷ xs) ys a = All-append_right Q xs ys a.1

pub All-strip_prefix :
    (Q : ℕ → Type 0) (p s r : Text) → strip_prefix p s ≡ some r → All Q s → All Q r
All-strip_prefix Q p s r h a = All-append_right Q p r (subst (All Q) (strip_prefix-some p s r h) a)

found_here :
    (o : Option Text) (l : Option (Text × Text)) (parts : Text × Text)
    → (elim o [ none ↦ l | some r ↦ some ([], r) ]) ≡ some parts
    → (l ≡ some parts) ⊎ (o ≡ some parts.1)
found_here none l parts h = inl h
found_here (some r) l parts h = inr (ap (λ z. some z.1) (some-injective ([], r) parts h))

found_behind :
    (c : ℕ) (o : Option (Text × Text)) (parts : Text × Text)
    → ◌≡◌ {A = Option (Text × Text)}
        (elim o [ none ↦ none | some (a, b) ↦ some (c ∷ a, b) ])
        (some parts)
    → (a : Text) × (o ≡ some (a, parts.1))
found_behind c none parts h = absurd (cc)
found_behind c (some (a, b)) parts h =
    (a, ap (λ z. some (a, z.1)) (some-injective (c ∷ a, b) parts h))

-- what stands behind the text that was searched
pub All-split_once_at :
    (Q : ℕ → Type 0) (p s : Text) (parts : Text × Text)
    → split_once_at p s ≡ some parts
    → All Q s
    → All Q parts.1
unfolding split_once_at
All-split_once_at Q p [] parts h a = elim (found_here (strip_prefix p []) none parts h) [
  | inl e ↦ absurd (cc)
  | inr e ↦ All-strip_prefix Q p [] parts.1 e a
]
All-split_once_at Q p (c ∷ s) parts h a =
    let later : Option (Text × Text) = elim (split_once_at p s) [
      | none ↦ none
      | some (x, y) ↦ some (c ∷ x, y)
    ] in
    elim (found_here (strip_prefix p (c ∷ s)) later parts h) [
      | inl e ↦
          let (x, q) = found_behind c (split_once_at p s) parts e in
          All-split_once_at Q p s (x, parts.1) q a.1
      | inr e ↦ All-strip_prefix Q p (c ∷ s) parts.1 e a
    ]
