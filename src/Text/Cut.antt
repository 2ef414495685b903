-- ===== src/Text/Cut.antt =====
-- Prefixes, suffixes, searching and splitting.
use kernel_lore_mcp.Base.{
  ℕ, ◌≡◌, refl, Bool, inl, inr, [], ◌∷◌, ◌++◌, arith, ◌==◌, if◌then◌else◌, Option, none, some,
  is_some, ◌>>=◌, Bool-cases,
}
use kernel_lore_mcp.Text.Chars.{Text}
use mathlib.Core.List.{reverse}

-- `str::strip_prefix`: what follows the prefix
unfoldable pub strip_prefix : Text → Text → Option Text
strip_prefix [] s = some s
strip_prefix (p ∷ ps) [] = none
strip_prefix (p ∷ ps) (c ∷ s) = let rest = strip_prefix ps s in if c == p then rest else none

unfoldable pub starts_with : Text → Text → Bool
unfolding strip_prefix
starts_with p s = is_some (strip_prefix p s)

-- `str::split_once` on a text: around its first occurrence
unfoldable pub split_once_at : Text → Text → Option (Text × Text)
unfolding strip_prefix
split_once_at p [] = elim (strip_prefix p []) [ none ↦ none | some r ↦ some ([], r) ]
split_once_at p (c ∷ s) =
    let later : Option (Text × Text) = elim (split_once_at p s) [
      | none ↦ none
      | some (a, b) ↦ some (c ∷ a, b)
    ] in
    elim (strip_prefix p (c ∷ s)) [ none ↦ later | some r ↦ some ([], r) ]

unfoldable pub contains : Text → Text → Bool
unfolding split_once_at
contains p s = is_some (split_once_at p s)

-- `split_once` on a character
unfoldable pub split_once : ℕ → Text → Option (Text × Text)
split_once k [] = none
split_once k (c ∷ s) =
    let later : Option (Text × Text) = elim (split_once k s) [
      | none ↦ none
      | some (a, b) ↦ some (c ∷ a, b)
    ] in
    if c == k then some ([], s) else later

-- `str::strip_suffix`
unfoldable pub strip_suffix : Text → Text → Option Text
unfolding strip_prefix
strip_suffix p s = strip_prefix (reverse p) (reverse s) >>= λ r. some (reverse r)

pub strip_prefix-append : (p s : Text) → strip_prefix p (p ++ s) ≡ some s
unfolding strip_prefix
strip_prefix-append [] s = refl
strip_prefix-append (c ∷ p) s = ground (arith, strip_prefix-append p s)

pub strip_prefix-some : (p s r : Text) → strip_prefix p s ≡ some r → s ≡ p ++ r
unfolding strip_prefix
strip_prefix-some [] s r h = ground arith
strip_prefix-some (p ∷ ps) [] r h = ground arith
strip_prefix-some (p ∷ ps) (c ∷ s) r h = ground (arith, strip_prefix-some ps s r)

abbrev later : ℕ → Option (Text × Text) → Option (Text × Text)
later c o = elim o [ none ↦ none | some (a, b) ↦ some (c ∷ a, b) ]

later-some :
    (c : ℕ) (o : Option (Text × Text)) (a b : Text)
    → later c o ≡ some (a, b)
    → (a' : Text) × (o ≡ some (a', b)) × (a ≡ c ∷ a')
later-some c none a b h = cc
later-some c (some (a', b')) a b h = (a', ground arith, ground arith)

-- The two parts join to the text.
pub split_once-some : (k : ℕ) (s a b : Text) → split_once k s ≡ some (a, b) → s ≡ a ++ (k ∷ b)
unfolding split_once
split_once-some k [] a b h = ground arith
split_once-some k (c ∷ s) a b h = elim (Bool-cases (c == k)) [
  | inl e ↦ ground arith
  | inr e ↦
      let (a', q, r) = later-some c (split_once k s) a b (rw e at h) in
      let tail : s ≡ a' ++ (k ∷ b) = split_once-some k s a' b q in cc
]
