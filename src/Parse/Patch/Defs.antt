-- ===== src/Parse/Patch/Defs.antt =====
-- `parse_patch` as a machine over the lines, and the name in a hunk header.
use kernel_lore_mcp.Base.{
  ℕ, ◌+◌, ◌%◌, ◌^◌, Bool, true, false, not, ◌&&◌, ◌||◌, List, [], ◌∷◌, if◌then◌else◌, ◌==◌, length,
  drop, Option, none, some, or_else, ◌>>=◌,
}
use kernel_lore_mcp.Text.{
  Text, codes, is_digit, is_alphanumeric, trim, strip_prefix, starts_with, split_once,
  split_once_at, lines,
}
use kernel_lore_mcp.Text.Distinct.{push_new}

abbrev pub is_ident : ℕ → Bool
is_ident c = is_alphanumeric c || c == 95

-- the identifier characters at the end
unfoldable pub ident_run : Text → Text
ident_run [] = []
ident_run (c ∷ s) =
    let later = ident_run s in if length later == length s && is_ident c then c ∷ s else later

abbrev pub name_or_none : Text → Option Text
name_or_none [] = none
name_or_none (c ∷ s) = if is_ident c && not (is_digit c) then some (c ∷ s) else none

unfoldable pub trailing_identifier : Text → Option Text
trailing_identifier s = name_or_none (ident_run s)

unfoldable pub extract_function_name : Text → Option Text
extract_function_name ctx =
    let t = trim ctx in
    or_else (split_once 40 t >>= λ parts. trailing_identifier parts.0) (trailing_identifier t)

-- `trim_start_matches` of a letter and a slash: as often as they stand there
unfoldable pub strip_side : ℕ → Text → Text
strip_side k [] = []
strip_side k (c ∷ []) = c ∷ []
strip_side k (c ∷ d ∷ r) =
    let rest = strip_side k r in if c == k && d == 47 then rest else c ∷ d ∷ r

pub record PatchInfo : Type 0 where
  pub files : List Text
  pub funcs : List Text
  pub insertions : ℕ
  pub deletions : ℕ
  pub in_hunk : Bool

unfoldable pub push_file : Text → List Text → List Text
push_file side files =
    let clean = strip_side 98 (strip_side 97 side) in
    if length clean == 0 then files else push_new clean files

abbrev pub push_sides : Option (Text × Text) → List Text → List Text
push_sides none files = files
push_sides (some (a, b)) files = push_file b (push_file a files)

abbrev pub push_func : Option Text → List Text → List Text
push_func none funcs = funcs
push_func (some f) funcs = push_new f funcs

-- what stands behind the second `@@`
unfoldable pub hunk_function : Text → Option Text
hunk_function line = do
  (_, after) ← split_once_at (codes "@@") (drop 2 line)
  if length (trim after) == 0 then none else extract_function_name (trim after)

-- `+= 1` on a `u32`
abbrev pub bump : ℕ → ℕ
bump n = (n + 1) % 2 ^ 32

abbrev pub counted : Text → PatchInfo → PatchInfo
counted [] p = p
counted (c ∷ s) p =
    if c == 43
    then (if starts_with (codes "+") s then p else record p { insertions = bump p.insertions })
    else if c == 45
    then (if starts_with (codes "-") s then p else record p { deletions = bump p.deletions })
    else p

abbrev pub step_line : Option Text → Text → PatchInfo → PatchInfo
step_line (some tail) line p = record p {
  files = push_sides (split_once 32 tail) p.files;
  in_hunk = false;
}
step_line none line p =
    if starts_with (codes "@@ ") line
    then record p { funcs = push_func (hunk_function line) p.funcs; in_hunk = true }
    else if p.in_hunk
    then counted line p
    else p

unfoldable pub patch_lines : List Text → PatchInfo → PatchInfo
unfolding push_file
patch_lines [] p = p
patch_lines (line ∷ rest) p =
    patch_lines rest (step_line (strip_prefix (codes "diff --git ") line) line p)

abbrev pub no_patch : PatchInfo
no_patch = record { files = []; funcs = []; insertions = 0; deletions = 0; in_hunk = false }

unfoldable pub parse_patch : Text → PatchInfo
parse_patch patch = patch_lines (lines patch) no_patch
