-- ===== src/Parse/Body/First.antt =====
-- The patch of a body starts at its first line that starts a git diff.
use kernel_lore_mcp.Base.{
  ℕ, ◌+◌, ◌≤◌, ◌≡◌, refl, sym, ◌∙◌, ◌⊎◌, inl, inr, true, ◌∷◌, ◌++◌, length, take-drop, take, drop,
  arith, Option, none, some, Option-cases, Bool-cases, subst, bind-some,
}
use mathlib.Core.Option.{some-injective}
use kernel_lore_mcp.Text.{
  Text, starts_with, strip_prefix, strip_prefix-some, strip_prefix-append, split_once_at,
}
use kernel_lore_mcp.Text.Search.{split_once_at-some, split_once_at-first}
use kernel_lore_mcp.Parse.Body.Defs.{needle, patch_start, scrub_prose, split_prose_and_patch}

-- A git diff starts at that position of the body: at its start, or behind a line feed.
pub data StartsDiff (body : Text) : ℕ → Type 0 where
  at_start : (y : Text) → body ≡ needle ++ y → StartsDiff body 0
  at_line :
      (x y : Text) (n : ℕ) → body ≡ x ++ (10 ∷ needle ++ y) → n ≡ length x + 1 → StartsDiff body n

starts_with_iff : (p s : Text) → starts_with p s ≡ true → (y : Text) × (s ≡ p ++ y)
unfolding starts_with
starts_with_iff p s h = elim (Option-cases (strip_prefix p s)) [
  | inl e ↦ absurd (ground arith)
  | inr (r, e) ↦ (r, strip_prefix-some p s r e)
]

starts_with-append : (p y : Text) → starts_with p (p ++ y) ≡ true
unfolding starts_with
starts_with-append p y = rw (strip_prefix-append p y) refl

patch_start-StartsDiff : (body : Text) (n : ℕ) → patch_start body ≡ some n → StartsDiff body n
unfolding patch_start
patch_start-StartsDiff body n h = elim (Bool-cases (starts_with needle body)) [
  | inl e ↦
      let (y, q) = starts_with_iff needle body e in
      let z : 0 ≡ n = some-injective 0 n (rw e at h) in
      subst (λ k. StartsDiff body k) z (at_start y q)
  | inr e ↦
      let (parts, p, q) =
        bind-some (split_once_at (10 ∷ needle) body) (λ parts. some (length parts.0 + 1)) n
          (rw e at h) in
      at_line parts.0 parts.1 n (split_once_at-some (10 ∷ needle) body parts.0 parts.1 p)
        (sym (some-injective (length parts.0 + 1) n q))
]

patch_start-le :
    (body : Text) (k : ℕ) → StartsDiff body k → (n : ℕ) × (patch_start body ≡ some n) × (n ≤ k)
unfolding patch_start
patch_start-le body k (at_start y q) = (
  0,
  rw (subst (λ b. starts_with needle b ≡ true) (sym q) (starts_with-append needle y)) refl,
  omega arith,
)
patch_start-le body k (at_line x y k' q e) = elim (Bool-cases (starts_with needle body)) [
  | inl s ↦ (0, rw s refl, omega arith)
  | inr s ↦
      let (a, b, p, l) = split_once_at-first (10 ∷ needle) x y in
      let p' : split_once_at (10 ∷ needle) body ≡ some (a, b) =
        subst (λ z. split_once_at (10 ∷ needle) z ≡ some (a, b)) (sym q) p in
      (length a + 1, rw (s, p') refl, omega (arith, e, l))
]

-- A body is divided at the first position where a git diff starts, so that the two parts are the
-- body; a body without such a position has no patch. The prose is the first part, scrubbed.
pub split_prose_and_patch-first :
    (body : Text)
    → (((k : ℕ) → ¬ StartsDiff body k)
        × ((split_prose_and_patch body).patch ≡ none)
        × ((split_prose_and_patch body).prose ≡ scrub_prose body))
      ⊎ ((n : ℕ) × (prose : Text) × (patch : Text) × StartsDiff body n
          × ((k : ℕ) → StartsDiff body k → n ≤ k)
          × (prose ++ patch ≡ body)
          × ((split_prose_and_patch body).patch ≡ some patch)
          × ((split_prose_and_patch body).prose ≡ scrub_prose prose))
unfolding split_prose_and_patch
split_prose_and_patch-first body = elim (Option-cases (patch_start body)) [
  | inl e ↦ inl (
    λ k d. let (n, q, _) = patch_start-le body k d in absurd (clash n (sym e ∙ q)),
    rw e refl,
    rw e refl,
  )
  | inr (n, e) ↦ inr (
    n,
    take n body,
    drop n body,
    patch_start-StartsDiff body n e,
    λ k d.
        let (m, q, l) = patch_start-le body k d in
        let z : n ≡ m = some-injective n m (sym e ∙ q) in omega (arith, z, l),
    take-drop n body,
    rw e refl,
    rw e refl,
  )
]
  where
    clash : (n : ℕ) → ◌≡◌ {A = Option ℕ} none (some n) → ⊥
    clash n h = cc
