-- ===== src/Sync/Glob.antt =====
-- The include and exclude patterns of src/sync.rs. The source matches bytes, so a text is here a
-- list of bytes.
use kernel_lore_mcp.Base.{
  ℕ, ◌≡◌, refl, inl, inr, Bool, true, false, not, List, [], ◌∷◌, ◌++◌, ◌==◌, ==_iff, any,
  if◌then◌else◌, Bool-cases, arith, ◌↔◌, IsIn, ◌⊎◌,
}
use kernel_lore_mcp.Text.{Text}

abbrev star : ℕ
star = 42

abbrev question : ℕ
question = 63

-- `go`: a pattern may be as long as it likes, and so may the text
unfoldable pub fnmatch : Text → Text → Bool
fnmatch [] [] = true
fnmatch [] (c ∷ s) = false
fnmatch (p ∷ ps) [] = let skip = fnmatch ps [] in if p == star then skip else false
fnmatch (p ∷ ps) (c ∷ s) =
    let skip = fnmatch ps (c ∷ s) in
    let eat = fnmatch (p ∷ ps) s in
    let both = fnmatch ps s in
    if p == star
    then (if skip then true else eat)
    else if p == question
    then both
    else if p == c
    then both
    else false

unfoldable pub path_matches : Text → List Text → List Text → Bool
path_matches path [] exclude = not (any (λ p. fnmatch p path) exclude)
path_matches path (i ∷ is) exclude =
    if not (any (λ p. fnmatch p path) (i ∷ is))
    then false
    else not (any (λ p. fnmatch p path) exclude)

-- What a pattern means: a star stands for any text, a question mark for any one byte, and any other
-- byte for itself.
pub data Matches : Text → Text → Type 0 where
  done : Matches [] []
  some_text : {ps s : Text} (t : Text) → Matches ps s → Matches (star ∷ ps) (t ++ s)
  one : {ps s : Text} (c : ℕ) → Matches ps s → Matches (question ∷ ps) (c ∷ s)
  literal : {ps s : Text} (c : ℕ) → Matches ps s → Matches (c ∷ ps) (c ∷ s)

star_eats : (c : ℕ) (ps s : Text) → Matches (star ∷ ps) s → Matches (star ∷ ps) (c ∷ s)
star_eats c ps s (some_text t m) = some_text (c ∷ t) m
star_eats c ps s (literal d m) = some_text (c ∷ star ∷ []) m

fnmatch-Matches : (pat s : Text) → fnmatch pat s ≡ true → Matches pat s
unfolding fnmatch
fnmatch-Matches [] [] h = done
fnmatch-Matches [] (c ∷ s) h = absurd (cc)
fnmatch-Matches (p ∷ ps) [] h = elim (Bool-cases (p == star)) [
  | inl e ↦
      let q : p ≡ star = (==_iff p star).0 e in
      rw q (some_text [] (fnmatch-Matches ps [] (rw e at h)))
  | inr e ↦ absurd (ground arith)
]
fnmatch-Matches (p ∷ ps) (c ∷ s) h = elim (Bool-cases (p == star)) [
  | inl e ↦
      let q : p ≡ star = (==_iff p star).0 e in
      rw q (elim (Bool-cases (fnmatch ps (c ∷ s))) [
        | inl k ↦ some_text [] (fnmatch-Matches ps (c ∷ s) k)
        | inr k ↦ star_eats c ps s (rw q at (fnmatch-Matches (p ∷ ps) s (ground arith)))
      ])
  | inr e ↦ elim (Bool-cases (p == question)) [
    | inl f ↦
        let q : p ≡ question = (==_iff p question).0 f in
        rw q (one c (fnmatch-Matches ps s (ground arith)))
    | inr f ↦ elim (Bool-cases (p == c)) [
      | inl g ↦
          let q : p ≡ c = (==_iff p c).0 g in rw q (literal c (fnmatch-Matches ps s (ground arith)))
      | inr g ↦ absurd (ground arith)
    ]
  ]
]

fnmatch-star : (ps t s : Text) → fnmatch ps s ≡ true → fnmatch (star ∷ ps) (t ++ s) ≡ true
unfolding fnmatch
fnmatch-star ps [] [] h = h
fnmatch-star ps [] (c ∷ s) h = rw h refl
fnmatch-star ps (c ∷ t) s h = let later = fnmatch-star ps t s h in ground arith

fnmatch-literal : (c : ℕ) (ps s : Text) → fnmatch ps s ≡ true → fnmatch (c ∷ ps) (c ∷ s) ≡ true
fnmatch-literal c ps s h = elim (Bool-cases (c == star)) [
  | inl e ↦ let q : c ≡ star = (==_iff c star).0 e in rw q (fnmatch-star ps (star ∷ []) s h)
  | inr e ↦ unfold fnmatch in ground arith
]

fnmatch-one : (c : ℕ) (ps s : Text) → fnmatch ps s ≡ true → fnmatch (question ∷ ps) (c ∷ s) ≡ true
unfolding fnmatch
fnmatch-one c ps s h = h

Matches-fnmatch : {p t : Text} → Matches p t → fnmatch p t ≡ true
unfolding fnmatch
Matches-fnmatch done = refl
Matches-fnmatch (some_text {ps = ps} {s = s} t m) = fnmatch-star ps t s (Matches-fnmatch m)
Matches-fnmatch (one {ps = ps} {s = s} c m) = fnmatch-one c ps s (Matches-fnmatch m)
Matches-fnmatch (literal {ps = ps} {s = s} c m) = fnmatch-literal c ps s (Matches-fnmatch m)

-- A manifest path passes a pattern exactly if it is the pattern with a text for every star and one
-- byte for every question mark.
pub fnmatch_iff : (pat s : Text) → (fnmatch pat s ≡ true) ↔ Matches pat s
fnmatch_iff pat s = (fnmatch-Matches pat s, Matches-fnmatch)

-- A path passes the patterns: it matches one that is included, if any are given, and none that is
-- excluded.
abbrev pub IsAllowed : List Text → List Text → Text → Type 0
IsAllowed include exclude path =
    ((include ≡ []) ⊎ ((g : Text) × IsIn g include × Matches g path))
    × ((g : Text) → IsIn g exclude → ¬ Matches g path)

module _ (path : Text) where
  any-Matches :
      (gs : List Text)
      → any (λ g. fnmatch g path) gs ≡ true
      → (g : Text) × IsIn g gs × Matches g path
  any-Matches [] h = absurd (cc)
  any-Matches (g ∷ gs) h = elim (Bool-cases (fnmatch g path)) [
    | inl e ↦ (g, inl refl, fnmatch-Matches g path e)
    | inr e ↦ let (x, i, m) = any-Matches gs (rw e at h) in (x, inr i, m)
  ]

  any-matched :
      (gs : List Text) (g : Text) → IsIn g gs → Matches g path → any (λ g. fnmatch g path) gs ≡ true
  any-matched [] g i m = elim i [ ]
  any-matched (x ∷ gs) g (inl q) m =
      let e : fnmatch x path ≡ true = rw q (Matches-fnmatch m) in rw e refl
  any-matched (x ∷ gs) g (inr i) m = elim (Bool-cases (fnmatch x path)) [
    | inl e ↦ rw e refl
    | inr e ↦ rw e (any-matched gs g i m)
  ]

  clash : {b : Bool} → b ≡ true → b ≡ false → ⊥
  clash t f = cc

  excludes :
      (gs : List Text)
      → (not (any (λ g. fnmatch g path) gs) ≡ true) ↔ ((g : Text) → IsIn g gs → ¬ Matches g path)
  excludes gs = elim (Bool-cases (any (λ g. fnmatch g path) gs)) [
    | inl e ↦
        (λ h. absurd (cc (rw e at h)), λ n. let (g, i, m) = any-Matches gs e in absurd (n g i m))
    | inr e ↦ (λ h g i m. clash (any-matched gs g i m) e, λ n. rw e refl)
  ]

  pub path_matches_iff :
      (include exclude : List Text)
      → (path_matches path include exclude ≡ true) ↔ IsAllowed include exclude path
  unfolding path_matches
  path_matches_iff [] exclude = let (f, g) = excludes exclude in (λ h. (inl refl, f h), λ a. g a.1)
  path_matches_iff (i ∷ is) exclude =
      let (f, g) = excludes exclude in
      elim (Bool-cases (any (λ p. fnmatch p path) (i ∷ is))) [
        | inl e ↦ rw e (λ h. (inr (any-Matches (i ∷ is) e), f h), λ a. g a.1)
        | inr e ↦ rw e (
          λ h. absurd (cc),
          λ a. elim a.0 [
            | inl z ↦ absurd (cc)
            | inr (x, j, m) ↦ absurd (clash (any-matched (i ∷ is) x j m) e)
          ],
        )
      ]
