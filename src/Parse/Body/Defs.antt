-- ===== src/Parse/Body/Defs.antt =====
-- Where the patch starts, and the prose without signature and quoted lines.
use kernel_lore_mcp.Base.{
  ℕ, ◌+◌, Bool, false, ◌||◌, List, [], ◌∷◌, ◌++◌, if◌then◌else◌, length, take, drop, Option, none,
  some, ◌>>=◌, is_some,
}
use kernel_lore_mcp.Text.{
  Text, codes, trim_start, trim_end, starts_with, split_once_at, lines, text_eq,
}

abbrev pub needle : Text
needle = codes "diff --git "

-- the position of the line feed in front of the first such line, and one
unfoldable pub patch_start : Text → Option ℕ
patch_start body =
    if starts_with needle body
    then some 0
    else split_once_at (10 ∷ needle) body >>= λ parts. some (length parts.0 + 1)

abbrev pub is_signature : Text → Bool
is_signature line = text_eq (trim_end line) (codes "--") || text_eq line (codes "-- ")

-- the loop over the lines, with the flag that a signature was met
unfoldable pub scrub_lines : List Text → Bool → Text
scrub_lines [] in_signature = []
scrub_lines (line ∷ rest) in_signature =
    let later = scrub_lines rest (is_signature line || in_signature) in
    if is_signature line || in_signature || starts_with (codes ">") (trim_start line)
    then later
    else line ++ 10 ∷ later

unfoldable pub scrub_prose : Text → Text
scrub_prose body = scrub_lines (lines body) false

-- what `split_prose_and_patch` writes; `has_patch` is whether there is a patch
pub record Split : Type 0 where
  pub prose : Text
  pub patch : Option Text
  pub has_patch : Bool

abbrev pub prose_part : Text → Option ℕ → Text
prose_part body none = body
prose_part body (some start) = take start body

abbrev pub patch_part : Text → Option ℕ → Option Text
patch_part body start = start >>= λ n. some (drop n body)

unfoldable pub split_prose_and_patch : Text → Split
split_prose_and_patch body =
    let start = patch_start body in
    record {
      prose = scrub_prose (prose_part body start);
      patch = patch_part body start;
      has_patch = is_some (patch_part body start);
    }
