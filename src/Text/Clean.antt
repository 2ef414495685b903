-- ===== src/Text/Clean.antt =====
-- Texts without whitespace, and how trimming and lower case go together.
use kernel_lore_mcp.Base.{
  ℕ, ◌≡◌, refl, ap, ◌∙◌, Bool, false, [], ◌∷◌, ◌⊎◌, arith, All, Bool-cases, inl, inr,
}
use kernel_lore_mcp.Text.Chars.{
  Text, is_whitespace, lower, to_ascii_lowercase, trim_start_matches, trim_end_matches,
  trim_matches, trim, to_ascii_lowercase_idem,
}

abbrev pub IsClean : Text → Type 0
IsClean = All (λ c. is_whitespace c ≡ false)

lower-whitespace : (c : ℕ) → is_whitespace (lower c) ≡ is_whitespace c
unfolding is_whitespace
lower-whitespace c = ground arith

pub IsClean-to_ascii_lowercase : (s : Text) → IsClean s → IsClean (to_ascii_lowercase s)
unfolding to_ascii_lowercase
IsClean-to_ascii_lowercase [] h = tt
IsClean-to_ascii_lowercase (c ∷ s) h = (lower-whitespace c ∙ h.0, IsClean-to_ascii_lowercase s h.1)

Text-cases : (s : Text) → (s ≡ []) ⊎ ((d : ℕ) × (r : Text) × (s ≡ d ∷ r))
Text-cases [] = inl refl
Text-cases (d ∷ r) = inr (d, r, refl)

module _ (p : ℕ → Bool) where
  start_clean : (s : Text) → All (λ c. p c ≡ false) s → trim_start_matches p s ≡ s
  unfolding trim_start_matches
  start_clean [] h = refl
  start_clean (c ∷ s) h = rw h.0 refl

  end_clean : (s : Text) → All (λ c. p c ≡ false) s → trim_end_matches p s ≡ s
  unfolding trim_end_matches
  end_clean [] h = refl
  end_clean (c ∷ []) h = rw h.0 refl
  end_clean (c ∷ d ∷ s) h = rw (end_clean (d ∷ s) h.1, trim_end_matches) refl

  end_idem : (s : Text) → trim_end_matches p (trim_end_matches p s) ≡ trim_end_matches p s
  unfolding trim_end_matches
  end_idem [] = refl
  end_idem (c ∷ s) = elim (Text-cases (trim_end_matches p s)) [
    | inl e ↦ elim (Bool-cases (p c)) [
      | inl f ↦ rw (e, f, trim_end_matches) refl
      | inr f ↦ rw (e, f, trim_end_matches) (rw f refl)
    ]
    | inr (d, r, e) ↦
        let again : trim_end_matches p (d ∷ r) ≡ d ∷ r = rw e at (end_idem s) in
        rw (e, trim_end_matches) (rw (again, trim_end_matches) refl)
  ]

  start_end :
      (s : Text)
      → trim_start_matches p (trim_end_matches p (trim_start_matches p s))
        ≡ trim_end_matches p (trim_start_matches p s)
  unfolding trim_start_matches trim_end_matches
  start_end [] = refl
  start_end (c ∷ s) = elim (Bool-cases (p c)) [
    | inl f ↦ rw f (start_end s)
    | inr f ↦ rw f (elim (Text-cases (trim_end_matches p s)) [
      | inl e ↦ rw (e, trim_end_matches) (rw (f, trim_start_matches) (rw f refl))
      | inr (d, r, e) ↦ rw (e, trim_end_matches) (rw (f, trim_start_matches) refl)
    ])
  ]

  trim_matches_idem : (s : Text) → trim_matches p (trim_matches p s) ≡ trim_matches p s
  unfolding trim_matches
  trim_matches_idem s = ap (trim_end_matches p) (start_end s) ∙ end_idem (trim_start_matches p s)

pub trim-IsClean : (s : Text) → IsClean s → trim s ≡ s
unfolding trim trim_matches
trim-IsClean s h = rw (start_clean is_whitespace s h) (end_clean is_whitespace s h)

start-lower :
    (s : Text)
    → trim_start_matches is_whitespace (to_ascii_lowercase s)
      ≡ to_ascii_lowercase (trim_start_matches is_whitespace s)
unfolding trim_start_matches to_ascii_lowercase
start-lower [] = refl
start-lower (c ∷ s) =
    rw (lower-whitespace c)
      (elim (Bool-cases (is_whitespace c)) [ inl f ↦ rw f (start-lower s) | inr f ↦ rw f refl ])

end-lower :
    (s : Text)
    → trim_end_matches is_whitespace (to_ascii_lowercase s)
      ≡ to_ascii_lowercase (trim_end_matches is_whitespace s)
unfolding trim_end_matches to_ascii_lowercase
end-lower [] = refl
end-lower (c ∷ s) =
    rw (end-lower s, trim_end_matches)
      (elim (Text-cases (trim_end_matches is_whitespace s)) [
        | inl e ↦
            rw (e, trim_end_matches, lower-whitespace c)
              (elim (Bool-cases (is_whitespace c)) [ inl f ↦ rw f refl | inr f ↦ rw f refl ])
        | inr (d, r, e) ↦ rw (e, trim_end_matches) refl
      ])

pub trim-to_ascii_lowercase : (s : Text) → trim (to_ascii_lowercase s) ≡ to_ascii_lowercase (trim s)
unfolding trim trim_matches
trim-to_ascii_lowercase s =
    ap (trim_end_matches is_whitespace) (start-lower s)
    ∙ end-lower (trim_start_matches is_whitespace s)

pub trim_idem : (s : Text) → trim (trim s) ≡ trim s
unfolding trim
trim_idem s = trim_matches_idem is_whitespace s

pub lower-trim_idem :
    (s : Text)
    → to_ascii_lowercase (trim (to_ascii_lowercase (trim s))) ≡ to_ascii_lowercase (trim s)
lower-trim_idem s =
    ap to_ascii_lowercase (trim-to_ascii_lowercase (trim s) ∙ ap to_ascii_lowercase (trim_idem s))
    ∙ to_ascii_lowercase_idem (trim s)
