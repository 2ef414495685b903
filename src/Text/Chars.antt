-- ===== src/Text/Chars.antt =====
-- Characters: the classes and the case mapping of `char` and `u8`, and trimming.
use Prim.Native.Char.{code}
use Prim.Native.String.{String}
use kernel_lore_mcp.Base.{
  ℕ, ◌+◌, ◌-◌, ◌≡◌, refl, Bool, ◌||◌, List, [], ◌∷◌, arith, within, ◌==◌, if◌then◌else◌,
}

abbrev pub Text : Type 0
Text = List ℕ

-- a literal of the source
abbrev pub codes : String → Text
codes String.[] = []
codes (String.◌∷◌ c s) = code c ∷ codes s

abbrev pub is_digit : ℕ → Bool
is_digit c = within b'0' b'9' c

abbrev pub is_upper : ℕ → Bool
is_upper c = within b'A' b'Z' c

abbrev pub is_lower : ℕ → Bool
is_lower c = within b'a' b'z' c

abbrev pub is_alphabetic : ℕ → Bool
is_alphabetic c = is_upper c || is_lower c

abbrev pub is_alphanumeric : ℕ → Bool
is_alphanumeric c = is_alphabetic c || is_digit c

abbrev pub is_hexdigit : ℕ → Bool
is_hexdigit c = is_digit c || within b'a' b'f' c || within b'A' b'F' c

-- `char::is_ascii_graphic`
abbrev pub is_graphic : ℕ → Bool
is_graphic c = within b'!' b'~' c

-- `char::is_ascii_whitespace`
abbrev pub is_ascii_whitespace : ℕ → Bool
is_ascii_whitespace c = c == 32 || c == 9 || c == 10 || c == 12 || c == 13

-- `char::is_whitespace`: the Unicode property White_Space
unfoldable pub is_whitespace : ℕ → Bool
is_whitespace c =
    within 9 13 c
    || c == 32
    || c == 133
    || c == 160
    || c == 5760
    || within 8192 8202 c
    || c == 8232
    || c == 8233
    || c == 8239
    || c == 8287
    || c == 12288

abbrev pub lower : ℕ → ℕ
lower c = if is_upper c then c + 32 else c

abbrev pub upper : ℕ → ℕ
upper c = if is_lower c then c - 32 else c

unfoldable pub to_ascii_lowercase : Text → Text
to_ascii_lowercase [] = []
to_ascii_lowercase (c ∷ s) = lower c ∷ to_ascii_lowercase s

unfoldable pub to_ascii_uppercase : Text → Text
to_ascii_uppercase [] = []
to_ascii_uppercase (c ∷ s) = upper c ∷ to_ascii_uppercase s

-- drops the characters at the start that pass the test
unfoldable pub trim_start_matches : (ℕ → Bool) → Text → Text
trim_start_matches p [] = []
trim_start_matches p (c ∷ s) = let rest = trim_start_matches p s in if p c then rest else c ∷ s

-- drops the characters at the end that pass the test
unfoldable pub trim_end_matches : (ℕ → Bool) → Text → Text
trim_end_matches p [] = []
trim_end_matches p (c ∷ s) = elim (trim_end_matches p s) [
  | [] ↦ if p c then [] else c ∷ []
  | d ∷ r ↦ c ∷ d ∷ r
]

unfoldable pub trim_matches : (ℕ → Bool) → Text → Text
unfolding trim_start_matches trim_end_matches
trim_matches p s = trim_end_matches p (trim_start_matches p s)

unfoldable pub trim_start : Text → Text
unfolding trim_start_matches is_whitespace
trim_start s = trim_start_matches is_whitespace s

unfoldable pub trim_end : Text → Text
unfolding trim_end_matches is_whitespace
trim_end s = trim_end_matches is_whitespace s

unfoldable pub trim : Text → Text
unfolding trim_matches is_whitespace
trim s = trim_matches is_whitespace s

pub to_ascii_lowercase_idem :
    (s : Text) → to_ascii_lowercase (to_ascii_lowercase s) ≡ to_ascii_lowercase s
unfolding to_ascii_lowercase
to_ascii_lowercase_idem [] = refl
to_ascii_lowercase_idem (c ∷ s) = ground (arith, to_ascii_lowercase_idem s)

pub trim_start_matches_idem :
    (p : ℕ → Bool) (s : Text)
    → trim_start_matches p (trim_start_matches p s) ≡ trim_start_matches p s
unfolding trim_start_matches
trim_start_matches_idem p [] = refl
trim_start_matches_idem p (c ∷ s) = ground (arith, trim_start_matches_idem p s)
