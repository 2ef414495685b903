-- ===== src/Trigram/Numbers.antt =====
-- Ascending lists of numbers, each once: a `RoaringBitmap`, and `sort_unstable` with `dedup`.
use kernel_lore_mcp.Base.{
  ℕ, ◌≡◌, refl, ◌⊎◌, inl, inr, ◌↔◌, Bool, true, false, List, [], ◌∷◌, if◌then◌else◌, Bool-cases,
  ltb, ◌==◌, ==_iff, IsIn, any,
}

abbrev pub Bitmap : Type 0
Bitmap = List ℕ

unfoldable pub bitmap_insert : ℕ → Bitmap → Bitmap
bitmap_insert x [] = x ∷ []
bitmap_insert x (y ∷ ys) =
    let rest = bitmap_insert x ys in
    if x == y then y ∷ ys else if ltb x y then x ∷ y ∷ ys else y ∷ rest

unfoldable pub sort_dedup : List ℕ → List ℕ
sort_dedup [] = []
sort_dedup (x ∷ xs) = bitmap_insert x (sort_dedup xs)

unfoldable pub bitmap_has : ℕ → Bitmap → Bool
bitmap_has x = any (λ y. y == x)

IsIn-bitmap_insert_out : (a x : ℕ) (ys : Bitmap) → IsIn a (bitmap_insert x ys) → (x ≡ a) ⊎ IsIn a ys
unfolding bitmap_insert
IsIn-bitmap_insert_out a x [] i = i
IsIn-bitmap_insert_out a x (y ∷ ys) i =
    let later : (y ≡ a) ⊎ IsIn a (bitmap_insert x ys) → (x ≡ a) ⊎ IsIn a (y ∷ ys) = λ j. elim j [
      | inl e ↦ inr (inl e)
      | inr k ↦ elim (IsIn-bitmap_insert_out a x ys k) [ inl e ↦ inl e | inr l ↦ inr (inr l) ]
    ] in
    elim (Bool-cases (x == y)) [
      | inl e ↦ inr (rw e at i)
      | inr e ↦ elim (Bool-cases (ltb x y)) [
        | inl f ↦ rw (e, f) at i
        | inr f ↦ later (rw (e, f) at i)
      ]
    ]

IsIn-bitmap_insert_inv : (a x : ℕ) (ys : Bitmap) → (x ≡ a) ⊎ IsIn a ys → IsIn a (bitmap_insert x ys)
unfolding bitmap_insert
IsIn-bitmap_insert_inv a x [] i = i
IsIn-bitmap_insert_inv a x (y ∷ ys) i = elim (Bool-cases (x == y)) [
  | inl e ↦
      let q : x ≡ y = (==_iff x y).0 e in rw e (elim i [ inl r ↦ inl (rw (← q) r) | inr j ↦ j ])
  | inr e ↦ elim (Bool-cases (ltb x y)) [
    | inl f ↦ rw (e, f) i
    | inr f ↦
        rw (e, f)
          (elim i [
            | inl q ↦ inr (IsIn-bitmap_insert_inv a x ys (inl q))
            | inr (inl q) ↦ inl q
            | inr (inr j) ↦ inr (IsIn-bitmap_insert_inv a x ys (inr j))
          ])
  ]
]

pub IsIn-bitmap_insert :
    (a x : ℕ) (ys : Bitmap) → IsIn a (bitmap_insert x ys) ↔ ((x ≡ a) ⊎ IsIn a ys)
IsIn-bitmap_insert a x ys = (IsIn-bitmap_insert_out a x ys, IsIn-bitmap_insert_inv a x ys)

IsIn-sort_dedup_out : (a : ℕ) (xs : List ℕ) → IsIn a (sort_dedup xs) → IsIn a xs
unfolding sort_dedup
IsIn-sort_dedup_out a [] i = i
IsIn-sort_dedup_out a (x ∷ xs) i = elim (IsIn-bitmap_insert_out a x (sort_dedup xs) i) [
  | inl q ↦ inl q
  | inr j ↦ inr (IsIn-sort_dedup_out a xs j)
]

IsIn-sort_dedup_inv : (a : ℕ) (xs : List ℕ) → IsIn a xs → IsIn a (sort_dedup xs)
unfolding sort_dedup
IsIn-sort_dedup_inv a [] i = i
IsIn-sort_dedup_inv a (x ∷ xs) (inl q) = IsIn-bitmap_insert_inv a x (sort_dedup xs) (inl q)
IsIn-sort_dedup_inv a (x ∷ xs) (inr i) =
    IsIn-bitmap_insert_inv a x (sort_dedup xs) (inr (IsIn-sort_dedup_inv a xs i))

pub IsIn-sort_dedup : (a : ℕ) (xs : List ℕ) → IsIn a (sort_dedup xs) ↔ IsIn a xs
IsIn-sort_dedup a xs = (IsIn-sort_dedup_out a xs, IsIn-sort_dedup_inv a xs)

pub bitmap_has_iff : (x : ℕ) (b : Bitmap) → (bitmap_has x b ≡ true) ↔ IsIn x b
unfolding bitmap_has
bitmap_has_iff x [] = (λ h. absurd (cc), λ i. elim i [ ])
bitmap_has_iff x (y ∷ ys) =
    let (f, g) = bitmap_has_iff x ys in
    elim (Bool-cases (y == x)) [
      | inl e ↦ (λ h. inl ((==_iff y x).0 e), λ i. rw e refl)
      | inr e ↦ (
        λ h. inr (f (rw e at h)),
        λ i. elim i [ inl q ↦ absurd (differ e ((==_iff y x).1 q)) | inr j ↦ rw e (g j) ],
      )
    ]
  where
    differ : {b : Bool} → b ≡ false → b ≡ true → ⊥
    differ f t = cc
