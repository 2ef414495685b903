-- ===== src/Text/Lines.antt =====
-- `str::lines`, `str::split` and `str::split_whitespace`.
use kernel_lore_mcp.Base.{ℕ, Bool, List, [], ◌∷◌, ◌==◌, if◌then◌else◌}
use kernel_lore_mcp.Text.Chars.{Text, is_whitespace}

-- puts a character in front of the first piece
abbrev pub push_first : ℕ → List Text → List Text
push_first c [] = (c ∷ []) ∷ []
push_first c (w ∷ ws) = (c ∷ w) ∷ ws

-- `str::split` at each character that passes the test: one piece more than separators
unfoldable pub split : (ℕ → Bool) → Text → List Text
split p [] = [] ∷ []
split p (c ∷ s) = let rest = split p s in if p c then [] ∷ rest else push_first c rest

-- one `\r` before the line feed goes with it
unfoldable pub strip_cr : Text → Text
strip_cr [] = []
strip_cr (c ∷ []) = if c == 13 then [] else c ∷ []
strip_cr (c ∷ d ∷ s) = c ∷ strip_cr (d ∷ s)

-- the pieces between line feeds; an empty piece behind the last one is no line, and the text behind
-- the last line feed keeps its `\r`
unfoldable pub finish_lines : List Text → List Text
unfolding strip_cr
finish_lines [] = []
finish_lines ([] ∷ []) = []
finish_lines ((c ∷ s) ∷ []) = (c ∷ s) ∷ []
finish_lines (l ∷ m ∷ r) = strip_cr l ∷ finish_lines (m ∷ r)

unfoldable pub lines : Text → List Text
unfolding split finish_lines
lines s = finish_lines (split (λ c. c == 10) s)

-- drops the empty pieces
unfoldable pub nonempty : List Text → List Text
nonempty [] = []
nonempty ([] ∷ r) = nonempty r
nonempty ((c ∷ s) ∷ r) = (c ∷ s) ∷ nonempty r

unfoldable pub split_whitespace : Text → List Text
unfolding split nonempty is_whitespace
split_whitespace s = nonempty (split is_whitespace s)
