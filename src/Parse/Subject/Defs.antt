-- ===== src/Parse/Subject/Defs.antt =====
-- `decompose_subject`: reply prefixes, bracketed tags with version and numbering, and the rest.
use kernel_lore_mcp.Base.{
  ℕ, zero, suc, ◌-◌, Bool, true, false, List, [], ◌∷◌, ◌++◌, if◌then◌else◌, ltb, ◌==◌, length, drop,
  Option, none, some, or_else, ◌>>=◌,
}
use kernel_lore_mcp.Text.{
  Text, codes, is_ascii_whitespace, trim, trim_start, to_ascii_lowercase, to_ascii_uppercase,
  strip_prefix, split_once, contains, split, nonempty,
}
use kernel_lore_mcp.Text.Decimal.{parse_unsigned, u32_bound}
use kernel_lore_mcp.Text.Distinct.{push_new}

-- one round of the first loop: what stands behind a reply prefix of the trimmed text
abbrev pub behind : Text → Text → Option Text
behind prefix trimmed = strip_prefix prefix (to_ascii_lowercase trimmed) >>= λ r.
    some (drop (length trimmed - length r) trimmed)

unfoldable pub after_reply : Text → Option Text
after_reply trimmed =
    or_else (behind (codes "re:") trimmed)
      (or_else (behind (codes "fwd:") trimmed) (behind (codes "fw:") trimmed))

abbrev pub continue_or {ℓ} :
    {A : Type ℓ} {B : Type ℓ} → Option A → Option B → (A → Option B) → Option B
continue_or none stop go_on = stop
continue_or (some a) stop go_on = go_on a

-- The first loop; `none` means that the fuel ran out.
unfoldable pub strip_replies : ℕ → Text → Option Text
strip_replies zero rest = none
strip_replies (suc f) rest =
    continue_or (after_reply (trim_start rest)) (some (trim_start rest)) (λ r. strip_replies f r)

-- What `decompose_subject` returns; `normalized` is the rest while the loops run.
pub record Subject : Type 0 where
  pub normalized : Text
  pub tags : List Text
  pub version : ℕ
  pub index : Option ℕ
  pub total : Option ℕ
  pub is_cover : Bool

abbrev pub set_version : Option ℕ → Subject → Subject
set_version none s = s
set_version (some v) s = if ltb 0 v then record s { version = v } else s

abbrev pub set_numbers : Option (ℕ × ℕ) → Subject → Subject
set_numbers none s = s
set_numbers (some (l, r)) s =
    if ltb 0 r
    then record s { index = some l; total = some r; is_cover = if l == 0 then true else s.is_cover }
    else s

-- `vN` and `N/M`
unfoldable pub version_of : Text → Option ℕ
version_of tok = or_else (strip_prefix (codes "v") tok) (strip_prefix (codes "V") tok) >>= λ n.
    parse_unsigned u32_bound n

unfoldable pub numbers_of : Text → Option (ℕ × ℕ)
numbers_of tok = do
  (l, r) ← split_once 47 tok
  index ← parse_unsigned u32_bound l
  total ← parse_unsigned u32_bound r
  some (index, total)

unfoldable pub read_tokens : List Text → Subject → Subject
read_tokens [] s = s
read_tokens (tok ∷ toks) s =
    read_tokens toks (set_numbers (numbers_of tok) (set_version (version_of tok) s))

unfoldable pub split_ascii_whitespace : Text → List Text
split_ascii_whitespace s = nonempty (split is_ascii_whitespace s)

unfoldable pub read_tag : Text → Subject → Subject
unfolding split_ascii_whitespace
read_tag inner s =
    let tag = trim inner in
    let patch =
      if contains (codes "PATCH") (to_ascii_uppercase tag) then codes "PATCH" ∷ [] else [] in
    read_tokens (split_ascii_whitespace tag) (record s { tags = s.tags ++ tag ∷ patch })

-- the inside of a bracket at the start of the trimmed text, and what follows it
unfoldable pub bracket : Text → Option (Text × Text)
bracket trimmed = strip_prefix (codes "[") trimmed >>= λ tail. split_once 93 tail

-- The second loop.
unfoldable pub strip_tags : ℕ → Subject → Option Subject
unfolding read_tag
strip_tags zero s = none
strip_tags (suc f) s =
    let trimmed = trim_start s.normalized in
    continue_or (bracket trimmed) (some (record s { normalized = trimmed }))
      (λ parts. strip_tags f (record (read_tag parts.0 s) { normalized = parts.1 }))

unfoldable pub dedup_tags : List Text → List Text → List Text
dedup_tags [] seen = seen
dedup_tags (t ∷ ts) seen = dedup_tags ts (push_new t seen)

abbrev pub no_subject : Text → Subject
no_subject rest = record {
  normalized = rest;
  tags = [];
  version = 0;
  index = none;
  total = none;
  is_cover = false;
}

-- Each round of a loop shortens the text, so its length and one are fuel enough.
unfoldable pub decompose_subject : Text → Option Subject
decompose_subject raw = do
  rest ← strip_replies (suc (length raw)) (trim raw)
  s ← strip_tags (suc (length rest)) (no_subject rest)
  some (record s { normalized = trim s.normalized; tags = dedup_tags s.tags [] })
