-- ===== src/Text/Keyed.antt =====
-- Lists whose elements have a text as a key, each key once.
use kernel_lore_mcp.Base.{
  ℕ, zero, suc, ◌≡◌, sym, ◌∙◌, ap, inl, inr, Bool, List, [], ◌∷◌, map, ◌++◌, IsIn-append,
  IsIn-append_left, IsIn-append_right, take, retain, IsIn, IsIn-map, IsIn-map_inv, IsIn-retain_inv,
  Bool-cases, insert_by, sort_by, IsIn-insert_by, IsIn-sort_by, subst,
}
use kernel_lore_mcp.Text.Chars.{Text}
use kernel_lore_mcp.Text.Distinct.{IsDistinct}

module _ {A : Type 0} (key : A → Text) where
  abbrev pub IsKeyed : List A → Type 0
  IsKeyed xs = IsDistinct (map key xs)

  -- A key that fewer elements have is a key of the more.
  pub keys_of :
      (k : Text) (xs ys : List A)
      → ((a : A) → IsIn a xs → IsIn a ys)
      → IsIn k (map key xs)
      → IsIn k (map key ys)
  keys_of k xs ys f i =
      let (a, j, e) = IsIn-map_inv key k xs i in
      subst (λ z. IsIn z (map key ys)) e (IsIn-map key a ys (f a j))

  pub IsKeyed-retain : (p : A → Bool) (xs : List A) → IsKeyed xs → IsKeyed (retain p xs)
  IsKeyed-retain p [] d = tt
  IsKeyed-retain p (x ∷ xs) d = elim (Bool-cases (p x)) [
    | inl e ↦ rw e (
      λ i. d.0 (keys_of (key x) (retain p xs) xs (λ a j. (IsIn-retain_inv p a xs j).0) i),
      IsKeyed-retain p xs d.1,
    )
    | inr e ↦ rw e (IsKeyed-retain p xs d.1)
  ]

  IsIn-take : (n : ℕ) (a : A) (xs : List A) → IsIn a (take n xs) → IsIn a xs
  IsIn-take zero a xs i = elim i [ ]
  IsIn-take (suc n) a [] i = i
  IsIn-take (suc n) a (x ∷ xs) (inl q) = inl q
  IsIn-take (suc n) a (x ∷ xs) (inr j) = inr (IsIn-take n a xs j)

  pub IsKeyed-take : (n : ℕ) (xs : List A) → IsKeyed xs → IsKeyed (take n xs)
  IsKeyed-take zero xs d = tt
  IsKeyed-take (suc n) [] d = tt
  IsKeyed-take (suc n) (x ∷ xs) d = (
    λ i. d.0 (keys_of (key x) (take n xs) xs (λ a j. IsIn-take n a xs j) i),
    IsKeyed-take n xs d.1,
  )

  pub IsKeyed-append_left : (xs ys : List A) → IsKeyed (xs ++ ys) → IsKeyed xs
  IsKeyed-append_left [] ys d = tt
  IsKeyed-append_left (x ∷ xs) ys d = (
    λ i. d.0 (keys_of (key x) xs (xs ++ ys) (λ a j. IsIn-append_left a xs ys j) i),
    IsKeyed-append_left xs ys d.1,
  )

  pub IsKeyed-without : (xs ys : List A) (y : A) → IsKeyed (xs ++ y ∷ ys) → IsKeyed (xs ++ ys)
  IsKeyed-without [] ys y d = d.1
  IsKeyed-without (x ∷ xs) ys y d = (
    λ i. d.0 (keys_of (key x) (xs ++ ys) (xs ++ y ∷ ys) (λ a j. kept a j) i),
    IsKeyed-without xs ys y d.1,
  )
    where
      kept : (a : A) → IsIn a (xs ++ ys) → IsIn a (xs ++ y ∷ ys)
      kept a j = elim (IsIn-append a xs ys j) [
        | inl k ↦ IsIn-append_left a xs (y ∷ ys) k
        | inr k ↦ IsIn-append_right a xs (y ∷ ys) (inr k)
      ]

  module _ (lt : A → A → Bool) where
    IsKeyed-insert_by : (x : A) (xs : List A) → IsKeyed (x ∷ xs) → IsKeyed (insert_by lt x xs)
    unfolding insert_by
    IsKeyed-insert_by x [] d = d
    IsKeyed-insert_by x (y ∷ ys) d = elim (Bool-cases (lt y x)) [
      | inl e ↦ rw e (
        λ i. apart (IsIn-map_inv key (key y) (insert_by lt x ys) i),
        IsKeyed-insert_by x ys (λ i. d.0 (inr i), d.1.1),
      )
      | inr e ↦ rw e d
    ]
      where
        apart : (a : A) × IsIn a (insert_by lt x ys) × (key a ≡ key y) → ⊥
        apart (a, j, q) = elim (IsIn-insert_by lt a x ys j) [
          | inl s ↦ d.0 (inl (sym (ap key s ∙ q)))
          | inr k ↦ d.1.0 (subst (λ z. IsIn z (map key ys)) q (IsIn-map key a ys k))
        ]

    pub IsKeyed-sort_by : (xs : List A) → IsKeyed xs → IsKeyed (sort_by lt xs)
    unfolding sort_by
    IsKeyed-sort_by [] d = tt
    IsKeyed-sort_by (x ∷ xs) d = IsKeyed-insert_by x (sort_by lt xs) (
      λ i. d.0 (keys_of (key x) (sort_by lt xs) xs (λ a j. IsIn-sort_by lt a xs j) i),
      IsKeyed-sort_by xs d.1,
    )
