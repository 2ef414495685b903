-- ===== src/Text/Lengths.antt =====
-- How long the parts of a text are.
use kernel_lore_mcp.Base.{
  ℕ, zero, suc, ◌+◌, ◌-◌, ◌≤◌, ◌≡◌, refl, ap, ◌∙◌, Bool, [], ◌∷◌, length, drop, length-append,
  arith, some,
}
use kernel_lore_mcp.Text.Chars.{
  Text, is_whitespace, to_ascii_lowercase, trim_start_matches, trim_end_matches, trim_matches,
  trim_start, trim,
}
use kernel_lore_mcp.Text.Cut.{strip_prefix, strip_prefix-some, split_once, split_once-some}

pub length-drop : (n : ℕ) (s : Text) → length (drop n s) ≡ length s - n
length-drop zero s = omega arith
length-drop (suc n) [] = omega arith
length-drop (suc n) (c ∷ s) = omega (arith, length-drop n s)

pub length-to_ascii_lowercase : (s : Text) → length (to_ascii_lowercase s) ≡ length s
unfolding to_ascii_lowercase
length-to_ascii_lowercase [] = refl
length-to_ascii_lowercase (c ∷ s) = omega (arith, length-to_ascii_lowercase s)

length-trim_start_matches_le :
    (p : ℕ → Bool) (s : Text) → length (trim_start_matches p s) ≤ length s
unfolding trim_start_matches
length-trim_start_matches_le p [] = omega arith
length-trim_start_matches_le p (c ∷ s) = ground (arith, length-trim_start_matches_le p s)

pub length-trim_start_le : (s : Text) → length (trim_start s) ≤ length s
unfolding trim_start
length-trim_start_le s = length-trim_start_matches_le is_whitespace s

length-trim_end_matches_le : (p : ℕ → Bool) (s : Text) → length (trim_end_matches p s) ≤ length s
unfolding trim_end_matches
length-trim_end_matches_le p [] = omega arith
length-trim_end_matches_le p (c ∷ s) = ground (arith, length-trim_end_matches_le p s)

pub length-trim_le : (s : Text) → length (trim s) ≤ length s
unfolding trim trim_matches
length-trim_le s = omega (
  arith,
  length-trim_end_matches_le is_whitespace (trim_start_matches is_whitespace s),
  length-trim_start_matches_le is_whitespace s,
)

pub length-strip_prefix :
    (p s r : Text) → strip_prefix p s ≡ some r → length s ≡ length p + length r
length-strip_prefix p s r h = ap length (strip_prefix-some p s r h) ∙ length-append p r

pub length-split_once :
    (k : ℕ) (s a b : Text) → split_once k s ≡ some (a, b) → length s ≡ length a + suc (length b)
length-split_once k s a b h = ap length (split_once-some k s a b h) ∙ length-append a (k ∷ b)
