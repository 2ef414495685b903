-- ===== src/Text/Search.antt =====
-- `find` and `split_once` on a text give its first occurrence.
use kernel_lore_mcp.Base.{
  ℕ, ◌≤◌, ◌≡◌, refl, sym, ap, ◌∙◌, ◌⊎◌, inl, inr, [], ◌∷◌, ◌++◌, length, arith, Option, none, some,
  Option-cases,
}
use mathlib.Core.Option.{some-injective}
use kernel_lore_mcp.Text.Chars.{Text}
use kernel_lore_mcp.Text.Cut.{strip_prefix, strip_prefix-some, strip_prefix-append, split_once_at}

-- what stands before the occurrence counts only where the text does not start with it
abbrev pub first_of : Option Text → Option (Text × Text) → Option (Text × Text)
first_of o l = elim o [ none ↦ l | some r ↦ some ([], r) ]

abbrev pub one_later : ℕ → Option (Text × Text) → Option (Text × Text)
one_later c o = elim o [ none ↦ none | some (a, b) ↦ some (c ∷ a, b) ]

first_of-some :
    (o : Option Text) (l : Option (Text × Text)) (a b : Text)
    → first_of o l ≡ some (a, b)
    → ((o ≡ some b) × (a ≡ [])) ⊎ ((o ≡ none) × (l ≡ some (a, b)))
first_of-some none l a b h = inr (refl, h)
first_of-some (some r) l a b h =
    let q = some-injective ([], r) (a, b) h in inl (ap (λ z. some z.1) q, sym (ap (λ z. z.0) q))

one_later-some :
    (c : ℕ) (o : Option (Text × Text)) (a b : Text)
    → one_later c o ≡ some (a, b)
    → (a' : Text) × (o ≡ some (a', b)) × (a ≡ c ∷ a')
one_later-some c none a b h = absurd (cc)
one_later-some c (some (x, y)) a b h =
    let q = some-injective (c ∷ x, y) (a, b) h in
    (x, ap (λ z. some (x, z.1)) q, sym (ap (λ z. z.0) q))

-- The parts and the text between them are the text.
pub split_once_at-some : (p s a b : Text) → split_once_at p s ≡ some (a, b) → s ≡ a ++ (p ++ b)
unfolding split_once_at
split_once_at-some p [] a b h = elim (first_of-some (strip_prefix p []) none a b h) [
  | inl (e, q) ↦ rw q (strip_prefix-some p [] b e)
  | inr (e, q) ↦ absurd (cc)
]
split_once_at-some p (c ∷ s) a b h =
    elim (first_of-some (strip_prefix p (c ∷ s)) (one_later c (split_once_at p s)) a b h) [
      | inl (e, q) ↦ rw q (strip_prefix-some p (c ∷ s) b e)
      | inr (_, q) ↦
          let (a', r, t) = one_later-some c (split_once_at p s) a b q in
          rw t (ap (λ z. c ∷ z) (split_once_at-some p s a' b r))
    ]

split_once_at-here : (p s r : Text) → strip_prefix p s ≡ some r → split_once_at p s ≡ some ([], r)
unfolding split_once_at
split_once_at-here p [] r h = ap (λ o. first_of o none) h
split_once_at-here p (c ∷ s) r h = ap (λ o. first_of o (one_later c (split_once_at p s))) h

split_once_at-later :
    (p : Text) (c : ℕ) (s : Text)
    → strip_prefix p (c ∷ s) ≡ none
    → split_once_at p (c ∷ s) ≡ one_later c (split_once_at p s)
unfolding split_once_at
split_once_at-later p c s h = ap (λ o. first_of o (one_later c (split_once_at p s))) h

-- A text that has an occurrence is split, and not behind it.
pub split_once_at-first :
    (p x y : Text)
    → (a : Text) × (b : Text) × (split_once_at p (x ++ (p ++ y)) ≡ some (a, b))
      × (length a ≤ length x)
split_once_at-first p [] y =
    ([], y, split_once_at-here p (p ++ y) y (strip_prefix-append p y), omega arith)
split_once_at-first p (c ∷ x) y =
    let s = x ++ (p ++ y) in
    elim (Option-cases (strip_prefix p (c ∷ s))) [
      | inl e ↦
          let (a, b, q, l) = split_once_at-first p x y in
          (c ∷ a, b, split_once_at-later p c s e ∙ ap (one_later c) q, omega (arith, l))
      | inr (r, e) ↦ ([], r, split_once_at-here p (c ∷ s) r e, omega arith)
    ]
