-- ===== src/State/Markers.antt =====
-- The generation counter, the tier markers, and what the reader concludes from them.
use native.Mathlib.Decide.{dec_lt}
use kernel_lore_mcp.Base.{
  ℕ, ◌≤◌, ◌<◌, ◌≡◌, ◌≢◌, refl, ap, sym, subst, ◌∙◌, ◌⊎◌, inl, inr, ◌↔◌, true, false, ◌&&◌, [], ◌∷◌,
  ◌++◌, All-weaken, append_assoc, length, length-append, arith, if◌then◌else◌, Option, none, some,
  Bool-cases,
}
use kernel_lore_mcp.Text.{
  Text, codes, is_digit, is_whitespace, text_eq, text_eq-cases, text_eq_refl, trim,
}
use kernel_lore_mcp.Text.Decimal.{
  to_string, to_string-ne-nil, to_string-digits, parse_unsigned, parse_unsigned-to_string,
  u64_bound,
}
use kernel_lore_mcp.Text.Trim.{trim-append_newline, digit-not_whitespace}
use kernel_lore_mcp.Text.Suffix.{text_eq-append_right, text_eq-append_ne}
use kernel_lore_mcp.Error.{Result, Done, ok, err}
use kernel_lore_mcp.State.Disk.{FilePath, path_eq, path_eq_iff, Disk, Fault, tmp_path}
use kernel_lore_mcp.State.Atomic.{atomic_write_all_or_nothing, atomic_write_frame}
use kernel_lore_mcp.State.Defs.{
  generation_path, tier_generation_path, generation, saturating_suc, bump_generation,
  tier_generation, set_tier_generation, marker_is_current, tier_marker_is_current,
}
use kernel_lore_mcp.State.Oids.{is_ok}

abbrev Trusted : Result ℕ → Result (Option ℕ) → Type 0
Trusted corpus marker =
    (n : ℕ) × (corpus ≡ ok n)
    × ((n ≡ 0) ⊎ ((marker ≡ ok none) ⊎ ((m : ℕ) × (marker ≡ ok (some m)) × (n ≤ m))))

iff_of :
    (corpus : Result ℕ) (marker : Result (Option ℕ))
    → (marker_is_current corpus marker ≡ true) ↔ Trusted corpus marker
unfolding marker_is_current
iff_of (err e) marker = (λ h. cc, λ h. ground arith)
iff_of (ok n) (err e) = (λ h. (n, refl, inl (ground arith)), λ h. ground arith)
iff_of (ok n) (ok none) = (λ h. (n, refl, inr (inl refl)), λ h. ground arith)
iff_of (ok n) (ok (some m)) = (λ h. (n, refl, reached h), λ h. ground arith)
  where
    reached :
        marker_is_current (ok n) (ok (some m)) ≡ true
        → (n ≡ 0)
          ⊎ ((◌≡◌ {A = Result (Option ℕ)} (ok (some m)) (ok none))
              ⊎ ((k : ℕ) × (◌≡◌ {A = Result (Option ℕ)} (ok (some m)) (ok (some k))) × (n ≤ k)))
    reached h = elim (dec_lt 0 n) [
      | yes p ↦ inr (inr (m, refl, ground arith))
      | no p ↦ inl (omega arith)
    ]

-- The bytes of a counter file read back as the counter.
pub counter_read_back :
    (n : ℕ) → n < u64_bound → parse_unsigned u64_bound (trim (to_string n ++ 10 ∷ [])) ≡ some n
counter_read_back n h =
    let digits =
      All-weaken (λ c. is_digit c ≡ true) (λ c. is_whitespace c ≡ false) digit-not_whitespace
        (to_string n) (to_string-digits n) in
    rw (trim-append_newline (to_string n) (to_string-ne-nil n) digits)
      (parse_unsigned-to_string u64_bound n h)

saturating_suc-lt : (n : ℕ) → saturating_suc n < u64_bound
saturating_suc-lt n = ground arith

-- A bump that succeeds returns the next generation and leaves it on disk; one that fails at any call
-- leaves the generation as it was.
pub generation-bump :
    (fault : Fault) (d : Disk) (n : ℕ)
    → generation d ≡ ok n
    → (((bump_generation fault d).0 ≡ ok (saturating_suc n))
        × (generation (bump_generation fault d).1 ≡ ok (saturating_suc n)))
      ⊎ ((is_ok (bump_generation fault d).0 ≡ false)
          × (generation (bump_generation fault d).1 ≡ ok n))
unfolding bump_generation
generation-bump fault d n h =
    let next = saturating_suc n in
    let bytes = to_string next ++ 10 ∷ [] in
    rw h (elim (atomic_write_all_or_nothing fault generation_path bytes d) [
      | inl (r, e) ↦
          inl (rw r, unfold generation in rw (e, counter_read_back next (saturating_suc-lt n)))
      | inr (r, e) ↦ inr (rw r, unfold generation in rw e (unfold generation in h))
    ])

tmp_suffix-ne :
    (name t : Text)
    → path_eq
        (record { dir = codes "state" ∷ []; name = name ++ codes ".tmp" })
        (tier_generation_path t)
      ≡ false
unfolding path_eq
tmp_suffix-ne name t =
    let e : text_eq (name ++ codes ".tmp") ((t ++ codes ".genera") ++ codes "tion") ≡ false =
      text_eq-append_ne name (t ++ codes ".genera") (codes ".tmp") (codes "tion") refl
        (unfold text_eq in refl) in
    let q : t ++ codes ".generation" ≡ (t ++ codes ".genera") ++ codes "tion" =
      sym (append_assoc t (codes ".genera") (codes "tion")) in
    rw (q, e) (ground arith)

tier_path_eq :
    (t t' : Text) → path_eq (tier_generation_path t) (tier_generation_path t') ≡ text_eq t t'
unfolding path_eq
tier_path_eq t t' = simp (text_eq_refl, text_eq-append_right) (ground arith)

-- Two paths whose names have different lengths differ.
path-ne-length : (p q : FilePath) → length p.name ≢ length q.name → path_eq p q ≡ false
path-ne-length p q n = elim (Bool-cases (path_eq p q)) [
  | inl e ↦ absurd (n (ap (λ (r : FilePath). length r.name) ((path_eq_iff p q).0 e)))
  | inr e ↦ e
]

tier_path-ne-generation : (t : Text) → path_eq (tier_generation_path t) generation_path ≡ false
tier_path-ne-generation t =
    path-ne-length (tier_generation_path t) generation_path
      (omega (arith, length-append t (codes ".generation")))

generation_tmp-ne-tier :
    (t : Text) → path_eq (tmp_path generation_path) (tier_generation_path t) ≡ false
generation_tmp-ne-tier t = tmp_suffix-ne (codes ".generation") t

tier_tmp-ne-tier :
    (t t' : Text) → path_eq (tmp_path (tier_generation_path t)) (tier_generation_path t') ≡ false
tier_tmp-ne-tier t t' = tmp_suffix-ne (codes "." ++ (t ++ codes ".generation")) t'

tier_tmp-ne-generation :
    (t : Text) → path_eq (tmp_path (tier_generation_path t)) generation_path ≡ false
tier_tmp-ne-generation t = path-ne-length (tmp_path (tier_generation_path t)) generation_path (
    omega (
      arith,
      length-append (t ++ codes ".generation") (codes ".tmp"),
      length-append t (codes ".generation"),
    ))

set_same :
    (fault : Fault) (t : Text) (n : ℕ) (d : Disk)
    → n < u64_bound
    → tier_generation t (set_tier_generation fault t n d).1
      ≡ (if is_ok (set_tier_generation fault t n d).0 then ok (some n) else tier_generation t d)
unfolding set_tier_generation
set_same fault t n d h =
    let p = tier_generation_path t in
    let bytes = to_string n ++ 10 ∷ [] in
    elim (atomic_write_all_or_nothing fault p bytes d) [
      | inl (r, e) ↦ rw r (unfold tier_generation in rw (e, counter_read_back n h))
      | inr (r, e) ↦ rw r (unfold tier_generation in rw e)
    ]

set_other :
    (fault : Fault) (t t' : Text) (n : ℕ) (d : Disk)
    → text_eq t t' ≡ false
    → tier_generation t' (set_tier_generation fault t n d).1 ≡ tier_generation t' d
unfolding set_tier_generation tier_generation
set_other fault t t' n d e = rw (
    atomic_write_frame fault (tier_generation_path t) (tier_generation_path t')
      (to_string n ++ 10 ∷ []) d (tier_path_eq t t' ∙ e) (tier_tmp-ne-tier t t'))

set-generation :
    (fault : Fault) (t : Text) (n : ℕ) (d : Disk)
    → generation (set_tier_generation fault t n d).1 ≡ generation d
unfolding set_tier_generation generation
set-generation fault t n d = rw (
    atomic_write_frame fault (tier_generation_path t) generation_path (to_string n ++ 10 ∷ []) d
      (tier_path-ne-generation t) (tier_tmp-ne-generation t))

-- Setting a marker under any fault: the tier reads the new generation exactly if the write
-- succeeded, and otherwise, like every other tier, what it read before. The corpus generation stays.
pub tier_generation-set :
    (fault : Fault) (t t' : Text) (n : ℕ) (d : Disk)
    → n < u64_bound
    → (tier_generation t' (set_tier_generation fault t n d).1 ≡ (
        if text_eq t t' && is_ok (set_tier_generation fault t n d).0
        then ok (some n)
        else tier_generation t' d))
      × (generation (set_tier_generation fault t n d).1 ≡ generation d)
tier_generation-set fault t t' n d h = (go (text_eq-cases t t'), set-generation fault t n d)
  where
    go :
        ((text_eq t t' ≡ true) × (t ≡ t')) ⊎ ((text_eq t t' ≡ false) × (t ≢ t'))
        → tier_generation t' (set_tier_generation fault t n d).1 ≡ (
            if text_eq t t' && is_ok (set_tier_generation fault t n d).0
            then ok (some n)
            else tier_generation t' d)
    go (inl (e, q)) = rw e (
        subst
          (λ u. tier_generation u (set_tier_generation fault t n d).1 ≡ (
            if is_ok (set_tier_generation fault t n d).0 then ok (some n) else tier_generation u d))
          q (set_same fault t n d h))
    go (inr (e, _)) = rw e (set_other fault t t' n d e)

-- A bump leaves every tier's marker as it was.
pub tier_generation-bump :
    (fault : Fault) (t : Text) (d : Disk) (n : ℕ)
    → generation d ≡ ok n
    → tier_generation t (bump_generation fault d).1 ≡ tier_generation t d
unfolding bump_generation tier_generation
tier_generation-bump fault t d n h = rw h (
    rw (
      atomic_write_frame fault generation_path (tier_generation_path t)
        (to_string (saturating_suc n) ++ 10 ∷ []) d
        (path-ne-length generation_path (tier_generation_path t)
          (omega (arith, length-append t (codes ".generation"))))
        (generation_tmp-ne-tier t)))

-- The reader trusts a tier exactly if the state directory opens, the generation of the corpus can be
-- read, and there is none yet, or the tier has no marker, or its marker has reached it. Where the
-- directory does not open or a counter that is needed cannot be read, the tier is not trusted.
pub tier_marker_is_current_iff :
    (opened : Done) (t : Text) (d : Disk)
    → (tier_marker_is_current opened t d ≡ true) ↔ (
        (opened ≡ ok tt)
        × ((n : ℕ) × (generation d ≡ ok n)
            × ((n ≡ 0)
                ⊎ ((tier_generation t d ≡ ok none)
                    ⊎ ((m : ℕ) × (tier_generation t d ≡ ok (some m)) × (n ≤ m))))))
unfolding tier_marker_is_current
tier_marker_is_current_iff (err e) t d = (λ h. absurd (cc), λ h. absurd (cc (h.0)))
tier_marker_is_current_iff (ok _) t d =
    let (f, g) = iff_of (generation d) (tier_generation t d) in (λ h. (refl, f h), λ (_, h). g h)
