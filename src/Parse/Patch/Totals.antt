-- ===== src/Parse/Patch/Totals.antt =====
-- What `parse_patch` reads, against a description of the patch that keeps no state but whether a line
-- is inside a hunk.
use kernel_lore_mcp.Base.{
  ℕ, ◌+◌, ◌%◌, ◌^◌, ◌≡◌, ◌≢◌, refl, sym, ap, ◌∙◌, ◌⊎◌, inl, inr, ◌↔◌, Bool, true, false, not, ◌&&◌,
  List, [], ◌∷◌, if◌then◌else◌, length, retain, ◌==◌, IsIn, arith, Option, none, some, is_some,
  Bool-cases, subst, either,
}
use native.Mathlib.Nat.{zero-add}
use mathlib.Core.Option.{some-injective}
use kernel_lore_mcp.Text.{Text, codes, lines, strip_prefix, starts_with, split_once}
use kernel_lore_mcp.Text.Distinct.{IsIn-push_new}
use kernel_lore_mcp.Parse.Patch.Defs.{
  strip_side, PatchInfo, push_file, push_sides, push_func, hunk_function, bump, counted, step_line,
  patch_lines, no_patch, parse_patch,
}

-- The lines of the hunks: a line `@@ ` opens a hunk, which ends at a line `diff --git `.
unfoldable pub hunk_lines : Bool → List Text → List Text
hunk_lines inside [] = []
hunk_lines inside (l ∷ ls) =
    let outer = hunk_lines false ls in
    let inner = hunk_lines true ls in
    if is_some (strip_prefix (codes "diff --git ") l)
    then outer
    else if starts_with (codes "@@ ") l
    then inner
    else if inside
    then l ∷ inner
    else outer

-- the line begins with this character, and not with two of it
abbrev pub begins_once : ℕ → Text → Bool
begins_once k [] = false
begins_once k (c ∷ s) = c == k && not (starts_with (k ∷ []) s)

-- the number of inserted (`+`, 43) or deleted (`-`, 45) lines, as a `u32`
abbrev pub changed : ℕ → Text → ℕ
changed k patch = length (retain (begins_once k) (hunk_lines false (lines patch))) % 2 ^ 32

-- the name of a side without its `a/` or `b/`
abbrev pub side_name : Text → Text
side_name side = strip_side 98 (strip_side 97 side)

-- The line is `diff --git <a> <b>` and names the file.
abbrev pub NamesFile : Text → Text → Type 0
NamesFile f line =
    (tail : Text) × (a : Text) × (b : Text) × (strip_prefix (codes "diff --git ") line ≡ some tail)
    × (split_once 32 tail ≡ some (a, b))
    × ((side_name a ≡ f) ⊎ (side_name b ≡ f))
    × (f ≢ [])

bump_mod : (n i : ℕ) → n ≡ i % 2 ^ 32 → bump n ≡ (i + 1) % 2 ^ 32
bump_mod n i h = omega (arith, h)

abbrev one_if : Bool → ℕ
one_if b = if b then 1 else 0

-- the counters hold these numbers of lines
abbrev Holds : ℕ → ℕ → PatchInfo → Type 0
Holds i d p = (p.insertions ≡ i % 2 ^ 32) × (p.deletions ≡ d % 2 ^ 32)

same_mod : (n i : ℕ) → n ≡ i % 2 ^ 32 → n ≡ (i + 0) % 2 ^ 32
same_mod n i h = omega (arith, h)

not_both : (c : ℕ) → (c == 43) ≡ true → (c == 45) ≡ false
not_both c e = ground (arith, e)

counted-Holds :
    (line : Text) (p : PatchInfo) (i d : ℕ)
    → Holds i d p
    → Holds (i + one_if (begins_once 43 line)) (d + one_if (begins_once 45 line)) (counted line p)
counted-Holds [] p i d (h, k) = (same_mod p.insertions i h, same_mod p.deletions d k)
counted-Holds (c ∷ s) p i d (h, k) = elim (Bool-cases (c == 43)) [
  | inl e ↦ elim (Bool-cases (starts_with (codes "+") s)) [
    | inl f ↦ rw (not_both c e, e, f) (same_mod p.insertions i h, same_mod p.deletions d k)
    | inr f ↦ rw (not_both c e, e, f) (bump_mod p.insertions i h, same_mod p.deletions d k)
  ]
  | inr e ↦ elim (Bool-cases (c == 45)) [
    | inl g ↦ elim (Bool-cases (starts_with (codes "-") s)) [
      | inl f ↦ rw (e, g, f) (same_mod p.insertions i h, same_mod p.deletions d k)
      | inr f ↦ rw (e, g, f) (same_mod p.insertions i h, bump_mod p.deletions d k)
    ]
    | inr g ↦ rw (e, g) (same_mod p.insertions i h, same_mod p.deletions d k)
  ]
]

counted-in_hunk : (line : Text) (p : PatchInfo) → (counted line p).in_hunk ≡ p.in_hunk
counted-in_hunk [] p = refl
counted-in_hunk (c ∷ s) p = ground arith

retain-cons_length :
    (k : ℕ) (l : Text) (ls : List Text)
    → length (retain (begins_once k) (l ∷ ls))
      ≡ one_if (begins_once k l) + length (retain (begins_once k) ls)
retain-cons_length k l ls = elim (Bool-cases (begins_once k l)) [
  | inl e ↦ rw e (omega arith)
  | inr e ↦ rw e (omega arith)
]

abbrev number : ℕ → Bool → List Text → ℕ
number k inside ls = length (retain (begins_once k) (hunk_lines inside ls))

regroup :
    (l : Text) (ls : List Text) (i d : ℕ) (p : PatchInfo)
    → Holds
        ((i + one_if (begins_once 43 l)) + length (retain (begins_once 43) ls))
        ((d + one_if (begins_once 45 l)) + length (retain (begins_once 45) ls))
        p
    → Holds
        (i + length (retain (begins_once 43) (l ∷ ls)))
        (d + length (retain (begins_once 45) (l ∷ ls)))
        p
regroup l ls i d p (h, k) =
    (omega (arith, h, retain-cons_length 43 l ls), omega (arith, k, retain-cons_length 45 l ls))

module _ (l : Text) (ls : List Text) (p : PatchInfo) (i d : ℕ) (h : Holds i d p)
    (rest : (p' : PatchInfo) (inside : Bool) (i' d' : ℕ)
      → p'.in_hunk ≡ inside
      → Holds i' d' p'
      → Holds (i' + number 43 inside ls) (d' + number 45 inside ls) (patch_lines ls p')) where
  -- a line that is no `diff --git `; `b` says that it opens a hunk
  inner-Holds :
      (b inside : Bool)
      → p.in_hunk ≡ inside
      → Holds
          (i
            + length (
                retain (begins_once 43) (
                  if b
                  then hunk_lines true ls
                  else if inside
                  then l ∷ hunk_lines true ls
                  else hunk_lines false ls)))
          (d
            + length (
                retain (begins_once 45) (
                  if b
                  then hunk_lines true ls
                  else if inside
                  then l ∷ hunk_lines true ls
                  else hunk_lines false ls)))
          (patch_lines ls (
            if b
            then record p { funcs = push_func (hunk_function l) p.funcs; in_hunk = true }
            else if inside
            then counted l p
            else p))
  inner-Holds true inside q =
      rest (record p { funcs = push_func (hunk_function l) p.funcs; in_hunk = true }) true i d refl
        h
  inner-Holds false true q = regroup l (hunk_lines true ls) i d (patch_lines ls (counted l p)) (
      rest (counted l p) true (i + one_if (begins_once 43 l)) (d + one_if (begins_once 45 l))
        (counted-in_hunk l p ∙ q) (counted-Holds l p i d h))
  inner-Holds false false q = rest p false i d q h

  line-Holds :
      (o : Option Text)
      → Holds
          (i
            + length (
                retain (begins_once 43) (
                  if is_some o
                  then hunk_lines false ls
                  else if starts_with (codes "@@ ") l
                  then hunk_lines true ls
                  else if p.in_hunk
                  then l ∷ hunk_lines true ls
                  else hunk_lines false ls)))
          (d
            + length (
                retain (begins_once 45) (
                  if is_some o
                  then hunk_lines false ls
                  else if starts_with (codes "@@ ") l
                  then hunk_lines true ls
                  else if p.in_hunk
                  then l ∷ hunk_lines true ls
                  else hunk_lines false ls)))
          (patch_lines ls (step_line o l p))
  line-Holds (some tail) = rest (step_line (some tail) l p) false i d refl h
  line-Holds none = inner-Holds (starts_with (codes "@@ ") l) p.in_hunk refl

patch_lines-Holds :
    (ls : List Text) (p : PatchInfo) (inside : Bool) (i d : ℕ)
    → p.in_hunk ≡ inside
    → Holds i d p
    → Holds (i + number 43 inside ls) (d + number 45 inside ls) (patch_lines ls p)
unfolding patch_lines hunk_lines
patch_lines-Holds [] p inside i d q (h, k) = (same_mod p.insertions i h, same_mod p.deletions d k)
patch_lines-Holds (l ∷ ls) p inside i d q h =
    subst
      (λ z. Holds (i + number 43 z (l ∷ ls)) (d + number 45 z (l ∷ ls)) (patch_lines (l ∷ ls) p)) q
      (line-Holds l ls p i d h
        (λ p' inside' i' d' q' h'. patch_lines-Holds ls p' inside' i' d' q' h')
        (strip_prefix (codes "diff --git ") l))

filled : (t : Text) → (length t == 0) ≡ false → t ≢ []
filled [] e q = absurd (cc)
filled (c ∷ t) e q = absurd (cc)

empty : (t : Text) → (length t == 0) ≡ true → t ≡ []
empty [] e = refl
empty (c ∷ t) e = absurd (ground (arith, e))

IsIn-push_file :
    (f side : Text) (files : List Text)
    → IsIn f (push_file side files) ↔ (IsIn f files ⊎ ((side_name side ≡ f) × (f ≢ [])))
unfolding push_file
IsIn-push_file f side files =
    let clean = side_name side in
    let (g, h) = IsIn-push_new f clean files in
    elim (Bool-cases (length clean == 0)) [
      | inl e ↦
          rw e (
            λ i. inl i,
            λ i. elim i [ inl j ↦ j | inr (q, n) ↦ absurd (n (sym q ∙ empty clean e)) ],
          )
      | inr e ↦ rw e (
        λ i. elim (g i) [ inl j ↦ inl j | inr q ↦ inr (q, subst (λ z. z ≢ []) q (filled clean e)) ],
        λ i. h (elim i [ inl j ↦ inl j | inr (q, n) ↦ inr q ]),
      )
    ]

abbrev NamedBy : Text → Option (Text × Text) → Type 0
NamedBy f o =
    (a : Text) × (b : Text) × (o ≡ some (a, b)) × ((side_name a ≡ f) ⊎ (side_name b ≡ f)) × (f ≢ [])

IsIn-push_sides :
    (f : Text) (o : Option (Text × Text)) (files : List Text)
    → IsIn f (push_sides o files) ↔ (IsIn f files ⊎ NamedBy f o)
IsIn-push_sides f none files =
    (λ i. inl i, λ i. elim i [ inl j ↦ j | inr (a, b, q, _, _) ↦ absurd (cc) ])
IsIn-push_sides f (some (a, b)) files =
    let (g, h) = IsIn-push_file f a files in
    let (g', h') = IsIn-push_file f b (push_file a files) in
    (
      λ i. elim (g' i) [
        | inl j ↦ elim (g j) [ inl k ↦ inl k | inr (q, n) ↦ inr (a, b, refl, inl q, n) ]
        | inr (q, n) ↦ inr (a, b, refl, inr q, n)
      ],
      λ i. elim i [
        | inl j ↦ h' (inl (h (inl j)))
        | inr (x, y, e, inl q, n) ↦ h' (inl (h (inr (left x y e ∙ q, n))))
        | inr (x, y, e, inr q, n) ↦ h' (inr (right x y e ∙ q, n))
      ],
    )
  where
    left :
        (x y : Text)
        → ◌≡◌ {A = Option (Text × Text)} (some (a, b)) (some (x, y))
        → side_name a ≡ side_name x
    left x y e = ap (λ z. side_name z.0) (some-injective (a, b) (x, y) e)

    right :
        (x y : Text)
        → ◌≡◌ {A = Option (Text × Text)} (some (a, b)) (some (x, y))
        → side_name b ≡ side_name y
    right x y e = ap (λ z. side_name z.1) (some-injective (a, b) (x, y) e)

step_files :
    (f l : Text) (p : PatchInfo) (o : Option Text)
    → strip_prefix (codes "diff --git ") l ≡ o
    → IsIn f (step_line o l p).files ↔ (IsIn f p.files ⊎ NamesFile f l)
step_files f l p (some tail) e =
    let (g, h) = IsIn-push_sides f (split_once 32 tail) p.files in
    (
      λ i. elim (g i) [ inl j ↦ inl j | inr (a, b, q, s, n) ↦ inr (tail, a, b, e, q, s, n) ],
      λ i. elim i [
        | inl j ↦ h (inl j)
        | inr (t, a, b, e', q, s, n) ↦
            let same : t ≡ tail = some-injective t tail (sym e' ∙ e) in
            h (inr (a, b, subst (λ z. split_once 32 z ≡ some (a, b)) same q, s, n))
      ],
    )
step_files f l p none e = (
  λ i. inl (subst (λ t. IsIn f t) same i),
  λ i. elim i [
    | inl j ↦ subst (λ t. IsIn f t) (sym same) j
    | inr (t, a, b, e', _, _, _) ↦ absurd (clash t (sym e ∙ e'))
  ],
)
  where
    clash : (t : Text) → ◌≡◌ {A = Option Text} none (some t) → ⊥
    clash t q = cc

    counted_files : (line : Text) → (counted line p).files ≡ p.files
    counted_files [] = refl
    counted_files (c ∷ s) = ground arith

    same : (step_line none l p).files ≡ p.files
    same =
        either (λ (z : PatchInfo). z.files ≡ p.files) (starts_with (codes "@@ ") l) _ _ refl
          (either (λ (z : PatchInfo). z.files ≡ p.files) p.in_hunk _ _ (counted_files l) refl)

patch_lines-files :
    (f : Text) (ls : List Text) (p : PatchInfo)
    → IsIn f (patch_lines ls p).files ↔ (IsIn f p.files ⊎ ((l : Text) × IsIn l ls × NamesFile f l))
unfolding patch_lines
patch_lines-files f [] p = (λ i. inl i, λ i. elim i [ inl j ↦ j | inr (l, j, _) ↦ elim j [ ] ])
patch_lines-files f (l ∷ ls) p =
    let (g, h) = step_files f l p (strip_prefix (codes "diff --git ") l) refl in
    let next = step_line (strip_prefix (codes "diff --git ") l) l p in
    let (g', h') = patch_lines-files f ls next in
    (
      λ i. elim (g' i) [
        | inl j ↦ elim (g j) [ inl k ↦ inl k | inr n ↦ inr (l, inl refl, n) ]
        | inr (x, j, n) ↦ inr (x, inr j, n)
      ],
      λ i. elim i [
        | inl j ↦ h' (inl (h (inl j)))
        | inr (x, inl q, n) ↦ h' (inl (h (inr (subst (NamesFile f) (sym q) n))))
        | inr (x, inr j, n) ↦ h' (inr (x, j, n))
      ],
    )

-- The counters of a patch are the numbers of the lines of its hunks that begin with one plus and with
-- one minus, and its files are those that a line `diff --git ` names.
pub parse_patch-totals :
    (patch : Text)
    → ((parse_patch patch).insertions ≡ changed 43 patch)
      × ((parse_patch patch).deletions ≡ changed 45 patch)
      × ((f : Text)
          → IsIn f (parse_patch patch).files ↔ ((l : Text) × IsIn l (lines patch) × NamesFile f l))
unfolding parse_patch
parse_patch-totals patch =
    let (i, d) = patch_lines-Holds (lines patch) no_patch false 0 0 refl (refl, refl) in
    (
      i ∙ ap (λ n. n % 2 ^ 32) (zero-add (number 43 false (lines patch))),
      d ∙ ap (λ n. n % 2 ^ 32) (zero-add (number 45 false (lines patch))),
      λ f.
          let (g, h) = patch_lines-files f (lines patch) no_patch in
          (λ k. elim (g k) [ inl z ↦ elim z [ ] | inr n ↦ n ], λ n. h (inr n)),
    )
