-- ===== src/PathTier/Lookup.antt =====
-- What the lookups find, by position.
use kernel_lore_mcp.Base.{
  ℕ, suc, ◌+◌, ◌≤◌, ◌≡◌, refl, sym, ap, ◌∙◌, ◌⊎◌, inl, inr, ◌↔◌, true, false, List, [], ◌∷◌, ◌++◌,
  length, drop, get_elem?, IsIn, IsIn-append, IsIn-append_left, IsIn-append_right, All-tabulate,
  All-lookup, some, unwrap_or, Bool-cases, subst, arith,
}
use mathlib.Core.Option.{some-injective}
use kernel_lore_mcp.Text.{Text, text_eq-cases, text_lt, starts_with}
use kernel_lore_mcp.Text.Sorted.{IsStrict, text_lt_trans}
use kernel_lore_mcp.Dict.{Dict, lookup, insert, lookup-insert}
use kernel_lore_mcp.PathTier.Defs.{
  u32, basename, index_basenames, binary_search, partition_point, prefix_run,
}
use kernel_lore_mcp.PathTier.Runs.{
  IsAt, IsAt-get, u32_small, starts_with-not_lt, IsStrict-after, prefix_run-IsAt, IsIn-prefix_run,
}

-- the run that starts at the partition point
abbrev pub run_from : Text → ℕ → List Text → List ℕ
run_from pre s xs = prefix_run pre (s + partition_point pre xs) (drop (partition_point pre xs) xs)

run_from-lt :
    (pre x : Text) (s : ℕ) (xs : List Text)
    → text_lt x pre ≡ true
    → run_from pre s (x ∷ xs) ≡ run_from pre (suc s) xs
unfolding partition_point
run_from-lt pre x s xs e =
    rw e (ap (λ k. prefix_run pre k (drop (partition_point pre xs) xs)) (omega arith))

run_from-ge :
    (pre x : Text) (s : ℕ) (xs : List Text)
    → text_lt x pre ≡ false
    → run_from pre s (x ∷ xs) ≡ prefix_run pre s (x ∷ xs)
unfolding partition_point
run_from-ge pre x s xs e = rw e (ap (λ k. prefix_run pre k (x ∷ xs)) (omega arith))

pub run_from-IsAt :
    (pre : Text) (s i : ℕ) (xs : List Text)
    → s + length xs ≤ 4294967296
    → IsIn i (run_from pre s xs)
    → (p : Text) × IsAt s i p xs × (starts_with pre p ≡ true)
unfolding partition_point prefix_run
run_from-IsAt pre s i [] b h = elim h [ ]
run_from-IsAt pre s i (x ∷ xs) b h = elim (Bool-cases (text_lt x pre)) [
  | inl e ↦
      let (p, a, t) =
        run_from-IsAt pre (suc s) i xs (omega (arith, b))
          (subst (IsIn i) (run_from-lt pre x s xs e) h) in
      (p, inr a, t)
  | inr e ↦ prefix_run-IsAt pre s i (x ∷ xs) b (subst (IsIn i) (run_from-ge pre x s xs e) h)
]

clash : true ≡ false → ⊥
clash h = cc

pub IsIn-run_from :
    (pre : Text) (s : ℕ) (xs : List Text) (p : Text)
    → s + length xs ≤ 4294967296
    → IsStrict xs
    → IsIn p xs
    → starts_with pre p ≡ true
    → (i : ℕ) × IsIn i (run_from pre s xs) × IsAt s i p xs
IsIn-run_from pre s [] p b o i t = elim i [ ]
IsIn-run_from pre s (x ∷ xs) p b o j t =
    let (after, o') = IsStrict-after x xs o in
    elim (Bool-cases (text_lt x pre)) [
      | inl e ↦ elim j [
        | inl q ↦ absurd (clash (sym e ∙ starts_with-not_lt pre x (rw q t)))
        | inr k ↦
            let (i, h, a) = IsIn-run_from pre (suc s) xs p (omega (arith, b)) o' k t in
            (i, subst (IsIn i) (sym (run_from-lt pre x s xs e)) h, inr a)
      ]
      | inr e ↦
          let past =
            All-tabulate (λ y. text_lt y pre ≡ false) xs
              (λ y k. elim (Bool-cases (text_lt y pre)) [
                | inl f ↦ absurd (
                    clash (
                      sym (
                        text_lt_trans x y pre (All-lookup (λ z. text_lt x z ≡ true) xs y after k) f)
                      ∙ e))
                | inr f ↦ f
              ]) in
          let (i, h, a) = IsIn-prefix_run pre s (x ∷ xs) p b o (e, past) j t in
          (i, subst (IsIn i) (sym (run_from-ge pre x s xs e)) h, a)
    ]

pub binary_search-IsAt :
    (path : Text) (s i : ℕ) (xs : List Text) → binary_search path s xs ≡ some i → IsAt s i path xs
unfolding binary_search
binary_search-IsAt path s i [] h = absurd (cc)
binary_search-IsAt path s i (x ∷ xs) h = elim (text_eq-cases x path) [
  | inl (e, q) ↦ inl (some-injective s i (rw e at h), q)
  | inr (e, n) ↦ inr (binary_search-IsAt path (suc s) i xs (rw e at h))
]

pub binary_search-finds :
    (path : Text) (s : ℕ) (xs : List Text)
    → IsIn path xs
    → (i : ℕ) × (binary_search path s xs ≡ some i)
unfolding binary_search
binary_search-finds path s [] j = elim j [ ]
binary_search-finds path s (x ∷ xs) j = elim (text_eq-cases x path) [
  | inl (e, q) ↦ (s, rw e refl)
  | inr (e, n) ↦ elim j [
    | inl q ↦ absurd (n q)
    | inr k ↦ let (i, h) = binary_search-finds path (suc s) xs k in (i, rw e h)
  ]
]

abbrev pub ids : Text → Dict (List ℕ) → List ℕ
ids name index = unwrap_or [] (lookup name index)

-- the path at that index has that basename
abbrev pub HasBasename : ℕ → ℕ → Text → List Text → Type 0
HasBasename s i name xs = (p : Text) × IsAt s i p xs × (basename p ≡ name)

IsIn-ids_insert :
    (n name : Text) (s i : ℕ) (index : Dict (List ℕ))
    → IsIn i (ids name (insert n (ids n index ++ s ∷ []) index))
      ↔ (IsIn i (ids name index) ⊎ ((s ≡ i) × (n ≡ name)))
IsIn-ids_insert n name s i index =
    let l = lookup-insert n name (ids n index ++ s ∷ []) index in
    elim (text_eq-cases n name) [
      | inl (e, q) ↦ (
        λ h. elim (IsIn-append i (ids n index) (s ∷ []) (rw (l, e) at h)) [
          | inl j ↦ inl (subst (λ z. IsIn i (ids z index)) q j)
          | inr (inl k) ↦ inr (k, q)
          | inr (inr z) ↦ elim z [ ]
        ],
        λ h.
            rw (l, e)
              (elim h [
                | inl j ↦
                    IsIn-append_left i (ids n index) (s ∷ [])
                      (subst (λ z. IsIn i (ids z index)) (sym q) j)
                | inr (k, _) ↦ IsIn-append_right i (ids n index) (s ∷ []) (inl k)
              ]),
      )
      | inr (e, n') ↦ (
        λ h. inl (rw (l, e) at h),
        λ h. rw (l, e) (elim h [ inl j ↦ j | inr (_, q) ↦ absurd (n' q) ]),
      )
    ]

pub IsIn-index_basenames :
    (s i : ℕ) (xs : List Text) (index : Dict (List ℕ)) (name : Text)
    → s + length xs ≤ 4294967296
    → IsIn i (ids name (index_basenames s xs index))
      ↔ (IsIn i (ids name index) ⊎ HasBasename s i name xs)
unfolding index_basenames
IsIn-index_basenames s i [] index name b =
    (λ h. inl h, λ h. elim h [ inl j ↦ j | inr (_, z, _) ↦ elim z [ ] ])
IsIn-index_basenames s i (x ∷ xs) index name b =
    let n = basename x in
    let small = u32_small s (omega (arith, b)) in
    let (f, g) =
      IsIn-index_basenames (suc s) i xs (insert n (ids n index ++ u32 s ∷ []) index) name
        (omega (arith, b)) in
    let (h, w) = IsIn-ids_insert n name (u32 s) i index in
    (
      λ j. elim (f j) [
        | inl k ↦ elim (h k) [ inl a ↦ inl a | inr (e, q) ↦ inr (x, inl (sym small ∙ e, refl), q) ]
        | inr (p, a, q) ↦ inr (p, inr a, q)
      ],
      λ j. g (elim j [
        | inl a ↦ inl (w (inl a))
        | inr (p, inl (e, r), q) ↦ inl (w (inr (small ∙ e, ap basename r ∙ q)))
        | inr (p, inr a, q) ↦ inr (p, a, q)
      ]),
    )

pub get-IsAt : (i : ℕ) (p : Text) (xs : List Text) → IsAt 0 i p xs → get_elem? xs i ≡ some p
get-IsAt i p xs a =
    let (k, e, q) = IsAt-get 0 i p xs a in
    let z : i ≡ k = omega (arith, e) in subst (λ j. get_elem? xs j ≡ some p) (sym z) q
