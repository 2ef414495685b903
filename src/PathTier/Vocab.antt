-- ===== src/PathTier/Vocab.antt =====
-- A vocabulary stands for the set of its paths.
use kernel_lore_mcp.Base.{
  ℕ, ◌+◌, ◌≤◌, ◌≡◌, refl, sym, ap, ◌∙◌, inl, inr, true, List, [], ◌∷◌, length, drop, IsIn, Option,
  none, some, subst, arith,
}
use kernel_lore_mcp.Error.{Result, ok, >>=-eq-ok, ok-injective}
use kernel_lore_mcp.Text.{Text, starts_with}
use kernel_lore_mcp.Text.Sorted.{IsStrict, to_set, IsStrict-to_set, IsIn-to_set}
use kernel_lore_mcp.Dict.{Dict, lookup}
use kernel_lore_mcp.PathTier.Defs.{
  Automaton, PathVocab, u32, basename, partition_point, prefix_run, index_basenames, from_paths,
  binary_search, lookup_exact, lookup_basename, lookup_prefix, path_for_id,
}
use kernel_lore_mcp.PathTier.Runs.{IsAt, IsAt-IsIn, IsAt-bound, IsAt-index, u32_small}
use kernel_lore_mcp.PathTier.Lookup.{
  run_from, run_from-IsAt, IsIn-run_from, binary_search-IsAt, binary_search-finds, ids,
  IsIn-index_basenames, get-IsAt,
}

-- The numbers are those of the paths of the set for which `P` holds, and of all of them.
abbrev pub Finds : PathVocab → List Text → List ℕ → (Text → Type 0) → Type 0
Finds v paths found P =
    ((i : ℕ) → IsIn i found → (p : Text) × (path_for_id i v ≡ some p) × IsIn p paths × P p)
    × ((p : Text) → IsIn p paths → P p → (i : ℕ) × IsIn i found × (path_for_id i v ≡ some p))

abbrev pub to_list : Option ℕ → List ℕ
to_list none = []
to_list (some i) = i ∷ []

module _ (paths : List Text) (v : PathVocab) (s : v.paths ≡ to_set paths)
    (b : length v.paths ≤ 4294967296) where
  -- a position in the vocabulary is a path of the set, and its number gives it back
  position : (i : ℕ) (p : Text) → IsAt 0 i p v.paths → (path_for_id i v ≡ some p) × IsIn p paths
  position i p a = (
    get-IsAt i p v.paths a,
    (IsIn-to_set p paths).0 (subst (IsIn p) s (IsAt-IsIn 0 i p v.paths a)),
  )

  listed : (p : Text) → IsIn p paths → IsIn p v.paths
  listed p i = subst (IsIn p) (sym s) ((IsIn-to_set p paths).1 i)

  from_zero : 0 + length v.paths ≤ 4294967296
  from_zero = omega (arith, b)

  lookup_prefix-run : (prefix : Text) → run_from prefix 0 v.paths ≡ lookup_prefix prefix v
  unfolding lookup_prefix
  lookup_prefix-run prefix =
      let n = partition_point prefix v.paths in
      ap (λ k. prefix_run prefix k (drop n v.paths)) (omega arith)

  lookup_prefix-Finds :
      (prefix : Text) → Finds v paths (lookup_prefix prefix v) (λ p. starts_with prefix p ≡ true)
  lookup_prefix-Finds prefix =
      let run = lookup_prefix-run prefix in
      (
        λ i h.
            let (p, a, t) =
              run_from-IsAt prefix 0 i v.paths from_zero (subst (IsIn i) (sym run) h) in
            let (g, j) = position i p a in (p, g, j, t),
        λ p j t.
            let (i, h, a) =
              IsIn-run_from prefix 0 v.paths p from_zero
                (subst IsStrict (sym s) (IsStrict-to_set paths)) (listed p j) t in
            (i, subst (IsIn i) run h, (position i p a).0),
      )

  found-Finds :
      (path : Text) (o : Option ℕ)
      → binary_search path 0 v.paths ≡ o
      → Finds v paths (to_list (elim o [ none ↦ none | some i ↦ some (u32 i) ])) (λ p. p ≡ path)
  found-Finds path none e = (
    λ i h. elim h [ ],
    λ p j q.
        let (i, h) =
          binary_search-finds path 0 v.paths (listed path (subst (λ z. IsIn z paths) q j)) in
        absurd (clash i (sym e ∙ h)),
  )
    where
      clash : (i : ℕ) → ◌≡◌ {A = Option ℕ} none (some i) → ⊥
      clash i h = cc
  found-Finds path (some k) e =
      let a = binary_search-IsAt path 0 k v.paths e in
      let small = u32_small k (omega (arith, b, IsAt-bound 0 k path v.paths a)) in
      let (g, j) = position k path a in
      (
        λ i h. elim h [
          | inl q ↦ (path, subst (λ z. path_for_id z v ≡ some path) (sym small ∙ q) g, j, refl)
          | inr z ↦ elim z [ ]
        ],
        λ p _ q. (
          u32 k,
          inl refl,
          subst (λ z. path_for_id z v ≡ some p) (sym small) (g ∙ ap some (sym q)),
        ),
      )

  lookup_exact-Finds : (path : Text) → Finds v paths (to_list (lookup_exact path v)) (λ p. p ≡ path)
  unfolding lookup_exact
  lookup_exact-Finds path = found-Finds path (binary_search path 0 v.paths) refl

  lookup_basename-Finds :
      v.basename_index ≡ index_basenames 0 v.paths []
      → (name : Text) → Finds v paths (lookup_basename name v) (λ p. basename p ≡ name)
  unfolding lookup_basename lookup
  lookup_basename-Finds e name =
      let In : Dict (List ℕ) → ℕ → Type 0 = λ index i. IsIn i (ids name index) in
      (
        λ i h.
            elim ((IsIn-index_basenames 0 i v.paths [] name from_zero).0
              (subst (λ z. In z i) e h)) [
                | inl z ↦ elim z [ ]
                | inr (p, a, q) ↦ let (g, j) = position i p a in (p, g, j, q)
              ],
        λ p j q.
            let (i, a) = IsAt-index p v.paths 0 (listed p j) in
            (
              i,
              subst (λ z. In z i) (sym e)
                  ((IsIn-index_basenames 0 i v.paths [] name from_zero).1 (inr (p, a, q))),
              (position i p a).0,
            ),
      )

-- A vocabulary implements the set of the paths that it is built from. The exact lookup, the lookup by
-- basename and the lookup by prefix each find the numbers of exactly the paths of the set that are
-- asked for, and the number of a path gives the path. There are at most 2 ^ 32 paths.
pub from_paths-Finds :
    (build : List Text → Result Automaton) (paths : List Text) (v : PathVocab)
    → from_paths build paths ≡ ok v
    → length v.paths ≤ 4294967296
    → ((path : Text) → Finds v paths (to_list (lookup_exact path v)) (λ p. p ≡ path))
      × ((name : Text) → Finds v paths (lookup_basename name v) (λ p. basename p ≡ name))
      × ((prefix : Text)
          → Finds v paths (lookup_prefix prefix v) (λ p. starts_with prefix p ≡ true))
unfolding from_paths
from_paths-Finds build paths v h b =
    let (a, _, q) = >>=-eq-ok (build (to_set paths)) _ h in
    let e = ok-injective _ v q in
    let s : v.paths ≡ to_set paths = sym (ap (λ z. z.paths) e) in
    let index : v.basename_index ≡ index_basenames 0 v.paths [] =
      sym (ap (λ z. z.basename_index) e) ∙ ap (λ z. index_basenames 0 z []) (sym s) in
    (
      lookup_exact-Finds paths v s b,
      lookup_basename-Finds paths v s b index,
      lookup_prefix-Finds paths v s b,
    )
