-- ===== src/TrailerRefs/Tokens.antt =====
-- The values that are cut out of a trailer are in the form that a lookup gives them.
use kernel_lore_mcp.Base.{
  ℕ, ◌≤◌, ◌≡◌, refl, ap, ◌∙◌, inl, inr, true, List, [], ◌∷◌, ◌++◌, arith, All, All-append,
  All-tabulate, All-lookup, Bool-cases, length, subst,
}
use kernel_lore_mcp.Text.{
  Text, is_hexdigit, lower, to_ascii_lowercase, to_ascii_lowercase_idem, trim,
}
use kernel_lore_mcp.Text.Trim.{hexdigit-not_whitespace}
use kernel_lore_mcp.Text.Clean.{IsClean, IsClean-to_ascii_lowercase, trim-IsClean, lower-trim_idem}
use kernel_lore_mcp.Text.Sorted.{set_insert, IsStrict, IsStrict-set_insert, IsIn-set_insert}
use kernel_lore_mcp.TrailerRefs.Defs.{is_hex_token, scan_hex, flush, extract_sha_prefixes}

-- Lower case, and no whitespace at the ends.
abbrev pub IsKey : Text → Type 0
IsKey v = to_ascii_lowercase (trim v) ≡ v

pub IsKey-lower_trim : (s : Text) → IsKey (to_ascii_lowercase (trim s))
IsKey-lower_trim s = lower-trim_idem s

pub IsKey-lower_clean : (s : Text) → IsClean s → IsKey (to_ascii_lowercase s)
IsKey-lower_clean s h =
    ap to_ascii_lowercase (trim-IsClean (to_ascii_lowercase s) (IsClean-to_ascii_lowercase s h))
    ∙ to_ascii_lowercase_idem s

-- Only hexadecimal digits, none a capital.
abbrev pub IsHash : Text → Type 0
IsHash = All (λ c. (is_hexdigit c ≡ true) × (lower c ≡ c))

IsHash-IsClean : (t : Text) → IsHash t → IsClean t
IsHash-IsClean [] h = tt
IsHash-IsClean (c ∷ t) h = (hexdigit-not_whitespace c h.0.0, IsHash-IsClean t h.1)

IsHash-lower : (t : Text) → IsHash t → to_ascii_lowercase t ≡ t
unfolding to_ascii_lowercase
IsHash-lower [] h = refl
IsHash-lower (c ∷ t) h = rw (IsHash-lower t h.1, h.0.1) refl

pub IsHash-IsKey : (s : Text) → IsHash s → IsKey s
IsHash-IsKey s h = ap to_ascii_lowercase (trim-IsClean s (IsHash-IsClean s h)) ∙ IsHash-lower s h

-- A hexadecimal number of 8 to 40 digits in lower case.
abbrev pub IsSha : Text → Type 0
IsSha s = IsHash s × (8 ≤ length s) × (length s ≤ 40)

All-set_insert :
    (P : Text → Type 0) (x : Text) (xs : List Text) → P x → All P xs → All P (set_insert x xs)
All-set_insert P x xs h a =
    All-tabulate P (set_insert x xs) (λ t i. elim (IsIn-set_insert t x xs i) [
      | inl q ↦ subst P q h
      | inr j ↦ All-lookup P xs t a j
    ])

hex_token_size : (s : Text) → is_hex_token s ≡ true → (8 ≤ length s) × (length s ≤ 40)
unfolding is_hex_token
hex_token_size s h = ground arith

flush-IsSha :
    (current : Text) (out : List Text)
    → IsHash current
    → All IsSha out × IsStrict out
    → All IsSha (flush current out) × IsStrict (flush current out)
flush-IsSha current out h (a, i) = elim (Bool-cases (is_hex_token current)) [
  | inl e ↦ rw e (
    All-set_insert IsSha current out (let (x, y) = hex_token_size current e in (h, x, y)) a,
    IsStrict-set_insert current out i,
  )
  | inr e ↦ rw e (a, i)
]

hexdigit-lower :
    (c : ℕ) → is_hexdigit c ≡ true → (is_hexdigit (lower c) ≡ true) × (lower (lower c) ≡ lower c)
hexdigit-lower c h = (ground arith, ground arith)

scan_hex-IsSha :
    (s current : Text) (out : List Text)
    → IsHash current
    → All IsSha out × IsStrict out
    → All IsSha (scan_hex s current out) × IsStrict (scan_hex s current out)
unfolding scan_hex
scan_hex-IsSha [] current out h a = flush-IsSha current out h a
scan_hex-IsSha (c ∷ s) current out h a = elim (Bool-cases (is_hexdigit c)) [
  | inl e ↦
      rw (e, scan_hex)
        (scan_hex-IsSha s (current ++ lower c ∷ []) out
          (All-append (λ d. (is_hexdigit d ≡ true) × (lower d ≡ d)) current (lower c ∷ []) h
            (hexdigit-lower c e, tt))
          a)
  | inr e ↦
      rw (e, scan_hex) (scan_hex-IsSha s [] (flush current out) tt (flush-IsSha current out h a))
]

-- The commit hashes that are found in a `Fixes:` value are hexadecimal, in lower case, of 8 to 40
-- digits, each listed once and in order.
pub extract_sha_prefixes-IsSha :
    (raw : Text) → All IsSha (extract_sha_prefixes raw) × IsStrict (extract_sha_prefixes raw)
unfolding extract_sha_prefixes
extract_sha_prefixes-IsSha raw = scan_hex-IsSha raw [] [] tt (tt, tt)
