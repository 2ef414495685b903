-- ===== src/Text/Trim.antt =====
-- Trimming a text that ends in a line feed, as the state files do.
use kernel_lore_mcp.Base.{ℕ, ◌≡◌, ◌≢◌, refl, Bool, true, false, [], ◌∷◌, ◌++◌, arith, All}
use kernel_lore_mcp.Text.Chars.{
  Text, is_digit, is_hexdigit, is_whitespace, trim_start_matches, trim_end_matches, trim_matches,
  trim,
}

module _ (p : ℕ → Bool) where
  trim_end_matches-append :
      (s : Text) (c : ℕ)
      → All (λ d. p d ≡ false) s
      → p c ≡ true
      → trim_end_matches p (s ++ c ∷ []) ≡ s
  unfolding trim_end_matches
  trim_end_matches-append [] c h k = ground arith
  trim_end_matches-append (d ∷ []) c h k = ground arith
  trim_end_matches-append (d ∷ e ∷ s) c h k =
      rw (trim_end_matches-append (e ∷ s) c h.1 k, trim_end_matches)

  trim_start_matches_none :
      (s : Text) (c : ℕ)
      → s ≢ []
      → All (λ d. p d ≡ false) s
      → trim_start_matches p (s ++ c ∷ []) ≡ s ++ c ∷ []
  unfolding trim_start_matches
  trim_start_matches_none [] c n h = absurd (n refl)
  trim_start_matches_none (d ∷ s) c n h = rw h.0

  pub trim_matches-append :
      (s : Text) (c : ℕ)
      → s ≢ []
      → All (λ d. p d ≡ false) s
      → p c ≡ true
      → trim_matches p (s ++ c ∷ []) ≡ s
  unfolding trim_matches
  trim_matches-append s c n h k =
      rw (trim_start_matches_none s c n h) (trim_end_matches-append s c h k)

-- A word followed by a line feed trims to the word.
pub trim-append_newline :
    (s : Text) → s ≢ [] → All (λ d. is_whitespace d ≡ false) s → trim (s ++ 10 ∷ []) ≡ s
unfolding trim
trim-append_newline s n h = trim_matches-append is_whitespace s 10 n h refl

pub hexdigit-not_whitespace : (c : ℕ) → is_hexdigit c ≡ true → is_whitespace c ≡ false
unfolding is_whitespace
hexdigit-not_whitespace c h = ground arith

pub digit-not_whitespace : (c : ℕ) → is_digit c ≡ true → is_whitespace c ≡ false
unfolding is_whitespace
digit-not_whitespace c h = ground arith
