-- ===== src/Router/Words.antt =====
-- A query of plain words has those words as its tokens.
use kernel_lore_mcp.Base.{
  ◌≡◌, ◌≢◌, refl, sym, ap, ◌∙◌, false, List, [], ◌∷◌, ◌++◌, map, ◌==◌, All, append-nil,
  append_assoc, arith,
}
use kernel_lore_mcp.Text.{Text}
use kernel_lore_mcp.Router.Defs.{is_separator, tokenize_from, tokenize_tagged}

-- No quote and no separator, and not empty.
abbrev pub IsWord : Text → Type 0
IsWord w = (w ≢ []) × All (λ c. ((c == 34) ≡ false) × (is_separator c ≡ false)) w

-- the words with one blank after each
abbrev pub unwords : List Text → Text
unwords [] = []
unwords (w ∷ ws) = w ++ 32 ∷ unwords ws

word_in :
    (w s buf : Text)
    → All (λ c. ((c == 34) ≡ false) × (is_separator c ≡ false)) w
    → tokenize_from (w ++ s) buf false false ≡ tokenize_from s (buf ++ w) false false
unfolding tokenize_from
word_in [] s buf a = ap (λ b. tokenize_from s b false false) (sym (append-nil buf))
word_in (c ∷ w) s buf a =
    rw (a.0.0, a.0.1)
      (word_in w s (buf ++ c ∷ []) a.1
        ∙ ap (λ b. tokenize_from s b false false) (append_assoc buf (c ∷ []) w))

word_end :
    (w s : Text)
    → w ≢ []
    → tokenize_from (32 ∷ s) w false false ≡ (w, false) ∷ tokenize_from s [] false false
unfolding tokenize_from
word_end [] s n = absurd (n refl)
word_end (c ∷ w) s n = ground arith

words_in :
    (ws : List Text)
    → All IsWord ws
    → tokenize_from (unwords ws) [] false false ≡ map (λ w. (w, false)) ws
words_in [] a = unfold tokenize_from in refl
words_in (w ∷ ws) a =
    word_in w (32 ∷ unwords ws) [] a.0.1
    ∙ word_end w (unwords ws) a.0.0
    ∙ ap (λ rest. (w, false) ∷ rest) (words_in ws a.1)

-- Words, each followed by a blank, are the tokens of the query, and none counts as quoted.
pub tokenize_tagged-unwords :
    (ws : List Text) → All IsWord ws → tokenize_tagged (unwords ws) ≡ map (λ w. (w, false)) ws
unfolding tokenize_tagged
tokenize_tagged-unwords ws a = words_in ws a
