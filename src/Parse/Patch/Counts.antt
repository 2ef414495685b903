-- ===== src/Parse/Patch/Counts.antt =====
-- What the machine over the lines of a patch keeps.
use kernel_lore_mcp.Base.{
  either, ℕ, suc, ◌+◌, ◌≤◌, ◌≡◌, ◌≢◌, inl, inr, true, false, List, [], ◌∷◌, if◌then◌else◌, length,
  ◌==◌, All, All-tabulate, All-lookup, arith, Option, none, some, Bool-cases, subst,
}
use kernel_lore_mcp.Text.{Text, codes, lines, strip_prefix, starts_with, split_once}
use kernel_lore_mcp.Text.Distinct.{push_new, IsDistinct, push_new-IsDistinct, IsIn-push_new}
use kernel_lore_mcp.Parse.Patch.Defs.{
  strip_side, PatchInfo, push_file, push_sides, push_func, hunk_function, counted, step_line,
  patch_lines, no_patch, parse_patch,
}

abbrev IsNonempty : Text → Type 0
IsNonempty f = f ≢ []

abbrev AreFiles : List Text → Type 0
AreFiles files = IsDistinct files × All IsNonempty files

-- files and functions once each, no empty file, and no more counted lines than lines were read
abbrev IsTally : ℕ → PatchInfo → Type 0
IsTally n p = AreFiles p.files × IsDistinct p.funcs × (p.insertions + p.deletions ≤ n)

All-push_new :
    (P : Text → Type 0) (x : Text) (xs : List Text) → P x → All P xs → All P (push_new x xs)
All-push_new P x xs h a = All-tabulate P (push_new x xs) (λ t i. elim ((IsIn-push_new t x xs).0 i) [
  | inl j ↦ All-lookup P xs t a j
  | inr q ↦ subst P q h
])

push_file-AreFiles :
    (side : Text) (files : List Text) → AreFiles files → AreFiles (push_file side files)
unfolding push_file
push_file-AreFiles side files (d, a) =
    let clean = strip_side 98 (strip_side 97 side) in
    elim (Bool-cases (length clean == 0)) [
      | inl e ↦ rw e (d, a)
      | inr e ↦ rw e (
        push_new-IsDistinct clean files d,
        All-push_new IsNonempty clean files (filled clean e) a,
      )
    ]
  where
    filled : (t : Text) → (length t == 0) ≡ false → t ≢ []
    filled [] e q = absurd (cc)
    filled (c ∷ t) e q = absurd (cc)

push_sides-AreFiles :
    (o : Option (Text × Text)) (files : List Text) → AreFiles files → AreFiles (push_sides o files)
push_sides-AreFiles none files h = h
push_sides-AreFiles (some (a, b)) files h =
    push_file-AreFiles b (push_file a files) (push_file-AreFiles a files h)

push_func-IsDistinct :
    (o : Option Text) (funcs : List Text) → IsDistinct funcs → IsDistinct (push_func o funcs)
push_func-IsDistinct none funcs d = d
push_func-IsDistinct (some f) funcs d = push_new-IsDistinct f funcs d

counted-IsTally :
    (n : ℕ) (line : Text) (p : PatchInfo) → IsTally n p → IsTally (suc n) (counted line p)
counted-IsTally n [] p (f, d, c) = (f, d, omega (arith, c))
counted-IsTally n (x ∷ s) p (f, d, c) = ground arith

step_line-IsTally :
    (n : ℕ) (o : Option Text) (line : Text) (p : PatchInfo)
    → IsTally n p
    → IsTally (suc n) (step_line o line p)
step_line-IsTally n (some tail) line p (f, d, c) =
    (push_sides-AreFiles (split_once 32 tail) p.files f, d, omega (arith, c))
step_line-IsTally n none line p (f, d, c) =
    either (IsTally (suc n)) (starts_with (codes "@@ ") line)
      (record p { funcs = push_func (hunk_function line) p.funcs; in_hunk = true })
      (if p.in_hunk then counted line p else p)
      (f, push_func-IsDistinct (hunk_function line) p.funcs d, omega (arith, c))
      (either (IsTally (suc n)) p.in_hunk (counted line p) p (counted-IsTally n line p (f, d, c))
        (f, d, omega (arith, c)))

patch_lines-IsTally :
    (ls : List Text) (n : ℕ) (p : PatchInfo)
    → IsTally n p
    → IsTally (length ls + n) (patch_lines ls p)
unfolding patch_lines
patch_lines-IsTally [] n p h = subst (λ k. IsTally k p) (omega arith) h
patch_lines-IsTally (l ∷ ls) n p h =
    let next = step_line (strip_prefix (codes "diff --git ") l) l p in
    subst (λ k. IsTally k (patch_lines ls next)) (omega arith)
      (patch_lines-IsTally ls (suc n) next
        (step_line-IsTally n (strip_prefix (codes "diff --git ") l) l p h))

-- What is read from a patch lists every file and every function once and no empty file, and counts
-- no more inserted and deleted lines than the patch has lines.
pub parse_patch-IsTally :
    (patch : Text)
    → IsDistinct (parse_patch patch).files
      × All (λ f. f ≢ []) (parse_patch patch).files
      × IsDistinct (parse_patch patch).funcs
      × ((parse_patch patch).insertions + (parse_patch patch).deletions ≤ length (lines patch))
unfolding parse_patch
parse_patch-IsTally patch =
    let ((d, a), g, c) = patch_lines-IsTally (lines patch) 0 no_patch ((tt, tt), tt, omega arith) in
    (d, a, g, omega (arith, c))
