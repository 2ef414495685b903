-- ===== src/Parse/Patch/Names.antt =====
-- The names that a patch is found under: its files, and the function of a hunk.
use kernel_lore_mcp.Base.{
  either, ℕ, ◌≡◌, ◌≢◌, refl, sym, ap, ◌∙◌, inl, inr, true, false, List, [], ◌∷◌, ◌++◌,
  if◌then◌else◌, length, length-append, ◌==◌, ==_iff, IsIn, All, arith, Option, none, some,
  Bool-cases, subst,
}
use kernel_lore_mcp.Text.{
  Text, codes, is_digit, trim, lines, strip_prefix, strip_prefix-append, starts_with, split_once,
}
use kernel_lore_mcp.Text.Distinct.{IsIn-push_new}
use kernel_lore_mcp.Parse.Patch.Defs.{
  is_ident, ident_run, trailing_identifier, extract_function_name, strip_side, PatchInfo, push_file,
  push_sides, push_func, hunk_function, counted, step_line, patch_lines, no_patch, parse_patch,
}

-- A C name: identifier characters, and no digit in front.
pub data IsName : Text → Type 0 where
  name :
      (c : ℕ) (s : Text)
      → is_ident c ≡ true
      → is_digit c ≡ false
      → All (λ d. is_ident d ≡ true) s
      → IsName (c ∷ s)

-- Nothing, or a text whose last character is no identifier character.
abbrev pub EndsName : Text → Type 0
EndsName [] = Unit
EndsName (c ∷ []) = is_ident c ≡ false
EndsName (c ∷ d ∷ s) = EndsName (d ∷ s)

ident_run-whole :
    (c : ℕ) (s : Text) → ident_run s ≡ s → is_ident c ≡ true → ident_run (c ∷ s) ≡ c ∷ s
unfolding ident_run
ident_run-whole c s e i = rw (e, i, (==_iff (length s) (length s)).1 refl) refl

ident_run-stop : (c : ℕ) (s : Text) → is_ident c ≡ false → ident_run (c ∷ s) ≡ ident_run s
unfolding ident_run
ident_run-stop c s i = ground arith

ident_run-part :
    (c : ℕ) (s : Text) → length (ident_run s) ≢ length s → ident_run (c ∷ s) ≡ ident_run s
unfolding ident_run
ident_run-part c s n = ground arith

ident_run-name : (s : Text) → All (λ d. is_ident d ≡ true) s → ident_run s ≡ s
ident_run-name [] a = unfold ident_run in refl
ident_run-name (c ∷ s) a = ident_run-whole c s (ident_run-name s a.1) a.0

ident_run-append :
    (pre s : Text) → EndsName pre → All (λ d. is_ident d ≡ true) s → ident_run (pre ++ s) ≡ s
ident_run-append [] s e a = ident_run-name s a
ident_run-append (c ∷ []) s e a = ident_run-stop c s e ∙ ident_run-name s a
ident_run-append (c ∷ d ∷ pre) s e a =
    let shorter : ident_run (d ∷ (pre ++ s)) ≡ s = ident_run-append (d ∷ pre) s e a in
    ident_run-part c (d ∷ (pre ++ s))
      (λ q. absurd (omega (arith, q, ap length shorter, length-append pre s)))
    ∙ shorter

trailing_identifier-name :
    (pre f : Text) → EndsName pre → IsName f → trailing_identifier (pre ++ f) ≡ some f
unfolding trailing_identifier
trailing_identifier-name pre [] e n = elim n [ ]
trailing_identifier-name pre (c ∷ s) e (name _ _ i d a) =
    rw (ident_run-append pre (c ∷ s) e (i, a)) (rw (i, d) refl)

split_once-name :
    (k : ℕ) (pre args : Text)
    → All (λ c. (c == k) ≡ false) pre
    → split_once k (pre ++ (k ∷ args)) ≡ some (pre, args)
unfolding split_once
split_once-name k [] args a = rw ((==_iff k k).1 refl) refl
split_once-name k (c ∷ pre) args a = rw (a.0, split_once-name k pre args a.1) refl

-- From a C declarator, up to whitespace around it, the name in front of the first parenthesis is
-- taken as the function.
pub extract_function_name-declarator :
    (ctx pre f args : Text)
    → trim ctx ≡ pre ++ f ++ (40 ∷ args)
    → All (λ c. (c == 40) ≡ false) (pre ++ f)
    → EndsName pre
    → IsName f
    → extract_function_name ctx ≡ some f
unfolding extract_function_name
extract_function_name-declarator ctx pre f args q a e n =
    let cut : split_once 40 (trim ctx) ≡ some (pre ++ f, args) =
      subst (λ t. split_once 40 t ≡ some (pre ++ f, args)) (sym q)
        (split_once-name 40 (pre ++ f) args a) in
    rw (cut, trailing_identifier-name pre f e n) refl

push_file-keeps : (f side : Text) (files : List Text) → IsIn f files → IsIn f (push_file side files)
unfolding push_file
push_file-keeps f side files i =
    let clean = strip_side 98 (strip_side 97 side) in
    elim (Bool-cases (length clean == 0)) [
      | inl e ↦ rw e i
      | inr e ↦ rw e ((IsIn-push_new f clean files).1 (inl i))
    ]

push_sides-keeps :
    (f : Text) (o : Option (Text × Text)) (files : List Text)
    → IsIn f files
    → IsIn f (push_sides o files)
push_sides-keeps f none files i = i
push_sides-keeps f (some (a, b)) files i =
    push_file-keeps f b (push_file a files) (push_file-keeps f a files i)

counted-files : (line : Text) (p : PatchInfo) → (counted line p).files ≡ p.files
counted-files [] p = refl
counted-files (c ∷ s) p = ground arith

step_line-keeps :
    (f : Text) (o : Option Text) (line : Text) (p : PatchInfo)
    → IsIn f p.files
    → IsIn f (step_line o line p).files
step_line-keeps f (some tail) line p i = push_sides-keeps f (split_once 32 tail) p.files i
step_line-keeps f none line p i =
    let In : PatchInfo → Type 0 = λ q. IsIn f q.files in
    either In (starts_with (codes "@@ ") line)
      (record p { funcs = push_func (hunk_function line) p.funcs; in_hunk = true })
      (if p.in_hunk then counted line p else p) i
      (either In p.in_hunk (counted line p) p (rw (counted-files line p) i) i)

patch_lines-keeps :
    (f : Text) (ls : List Text) (p : PatchInfo) → IsIn f p.files → IsIn f (patch_lines ls p).files
unfolding patch_lines
patch_lines-keeps f [] p i = i
patch_lines-keeps f (l ∷ ls) p i =
    let o = strip_prefix (codes "diff --git ") l in
    patch_lines-keeps f ls (step_line o l p) (step_line-keeps f o l p i)

-- the line that starts the diff of a file
abbrev pub header : Text → Text
header f = codes "diff --git " ++ (97 ∷ 47 ∷ f ++ (32 ∷ codes "b/" ++ f))

push_file-header :
    (f : Text) (files : List Text)
    → f ≢ []
    → strip_side 98 (strip_side 97 f) ≡ f
    → IsIn f (push_file (97 ∷ 47 ∷ f) files)
unfolding push_file
push_file-header f files n h =
    let clean : strip_side 98 (strip_side 97 (97 ∷ 47 ∷ f)) ≡ f = unfold strip_side in h in
    rw (clean, long f n) ((IsIn-push_new f f files).1 (inr refl))
  where
    long : (t : Text) → t ≢ [] → (length t == 0) ≡ false
    long [] n = absurd (n refl)
    long (c ∷ t) n = ground arith

step_line-header :
    (f : Text) (p : PatchInfo)
    → f ≢ []
    → strip_side 98 (strip_side 97 f) ≡ f
    → All (λ c. (c == 32) ≡ false) f
    → IsIn f (step_line (strip_prefix (codes "diff --git ") (header f)) (header f) p).files
step_line-header f p n h a =
    let tail = 97 ∷ 47 ∷ f ++ (32 ∷ codes "b/" ++ f) in
    let cut : split_once 32 tail ≡ some (97 ∷ 47 ∷ f, codes "b/" ++ f) =
      split_once-name 32 (97 ∷ 47 ∷ f) (codes "b/" ++ f) (refl, (refl, a)) in
    rw (strip_prefix-append (codes "diff --git ") tail) (
      rw cut (
        push_file-keeps f (codes "b/" ++ f) (push_file (97 ∷ 47 ∷ f) p.files)
          (push_file-header f p.files n h)))

patch_lines-header :
    (f : Text) (ls : List Text) (p : PatchInfo)
    → f ≢ []
    → strip_side 98 (strip_side 97 f) ≡ f
    → All (λ c. (c == 32) ≡ false) f
    → IsIn (header f) ls
    → IsIn f (patch_lines ls p).files
unfolding patch_lines
patch_lines-header f [] p n h a i = elim i [ ]
patch_lines-header f (l ∷ ls) p n h a (inl q) =
    let o = strip_prefix (codes "diff --git ") l in
    patch_lines-keeps f ls (step_line o l p) (
      subst (λ x. IsIn f (step_line (strip_prefix (codes "diff --git ") x) x p).files) (sym q)
        (step_line-header f p n h a))
patch_lines-header f (l ∷ ls) p n h a (inr i) =
    patch_lines-header f ls (step_line (strip_prefix (codes "diff --git ") l) l p) n h a i

-- A file with a git header line in the patch is among the touched files, if its name is not empty,
-- has no blank, and starts with neither `a/` nor `b/`.
pub parse_patch-header :
    (patch f : Text)
    → IsIn (header f) (lines patch)
    → f ≢ []
    → All (λ c. (c == 32) ≡ false) f
    → strip_side 98 (strip_side 97 f) ≡ f
    → IsIn f (parse_patch patch).files
unfolding parse_patch
parse_patch-header patch f i n a h = patch_lines-header f (lines patch) no_patch n h a i
