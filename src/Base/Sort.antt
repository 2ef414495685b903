-- ===== src/Base/Sort.antt =====
-- `sort_by`: a stable sort by insertion, for any strict order given as a test.
use mathlib.Core.Path.{◌≡◌}
use mathlib.Core.Logic.{◌⊎◌, inl, inr}
use mathlib.Core.Bool.{Bool, true, false}
use mathlib.Core.List.{List, [], ◌∷◌}
use kernel_lore_mcp.Base.Tests.{if◌then◌else◌, Bool-cases}
use kernel_lore_mcp.Base.Sets.{IsIn}

module _ {A : Type 0} (lt : A → A → Bool) where
  -- in front of the first element that is not smaller
  unfoldable pub insert_by : A → List A → List A
  insert_by x [] = x ∷ []
  insert_by x (y ∷ ys) = let rest = insert_by x ys in if lt y x then y ∷ rest else x ∷ y ∷ ys

  unfoldable pub sort_by : List A → List A
  unfolding insert_by
  sort_by [] = []
  sort_by (x ∷ xs) = insert_by x (sort_by xs)

  -- No element is smaller than the one before it.
  abbrev pub IsSorted : List A → Type 0
  IsSorted [] = Unit
  IsSorted (x ∷ []) = Unit
  IsSorted (x ∷ y ∷ r) = (lt y x ≡ false) × IsSorted (y ∷ r)

  IsSorted-insert_behind :
      (y x : A) (ys : List A)
      → lt x y ≡ false
      → IsSorted (y ∷ ys)
      → IsSorted (insert_by x ys)
      → IsSorted (y ∷ insert_by x ys)
  unfolding insert_by
  IsSorted-insert_behind y x [] h s t = (h, t)
  IsSorted-insert_behind y x (z ∷ zs) h s t = elim (Bool-cases (lt z x)) [
    | inl e ↦ rw e (s.0, rw e at t)
    | inr e ↦ rw e (h, rw e at t)
  ]

  pub IsSorted-insert_by :
      ((a b : A) → lt a b ≡ true → lt b a ≡ false)
      → (x : A) (xs : List A) → IsSorted xs
      → IsSorted (insert_by x xs)
  unfolding insert_by
  IsSorted-insert_by asym x [] s = tt
  IsSorted-insert_by asym x (y ∷ []) s = elim (Bool-cases (lt y x)) [
    | inl e ↦ rw e (asym y x e, tt)
    | inr e ↦ rw e (e, tt)
  ]
  IsSorted-insert_by asym x (y ∷ z ∷ r) s =
      let later = IsSorted-insert_by asym x (z ∷ r) s.1 in
      elim (Bool-cases (lt y x)) [
        | inl e ↦ rw e (IsSorted-insert_behind y x (z ∷ r) (asym y x e) s later)
        | inr e ↦ rw e (e, s)
      ]

  pub IsSorted-sort_by :
      ((a b : A) → lt a b ≡ true → lt b a ≡ false) → (xs : List A) → IsSorted (sort_by xs)
  unfolding sort_by
  IsSorted-sort_by asym [] = tt
  IsSorted-sort_by asym (x ∷ xs) = IsSorted-insert_by asym x (sort_by xs) (IsSorted-sort_by asym xs)

  pub IsIn-insert_by : (a x : A) (xs : List A) → IsIn a (insert_by x xs) → (x ≡ a) ⊎ IsIn a xs
  unfolding insert_by
  IsIn-insert_by a x [] i = i
  IsIn-insert_by a x (y ∷ ys) i =
      let later : IsIn a (insert_by x ys) → (x ≡ a) ⊎ IsIn a (y ∷ ys) =
        λ j. elim (IsIn-insert_by a x ys j) [ inl q ↦ inl q | inr k ↦ inr (inr k) ] in
      elim (Bool-cases (lt y x)) [
        | inl e ↦
            let i' : IsIn a (y ∷ insert_by x ys) = rw e at i in
            elim i' [ inl q ↦ inr (inl q) | inr j ↦ later j ]
        | inr e ↦ rw e at i
      ]

  pub IsIn-insert_by_inv : (a x : A) (xs : List A) → (x ≡ a) ⊎ IsIn a xs → IsIn a (insert_by x xs)
  unfolding insert_by
  IsIn-insert_by_inv a x [] i = i
  IsIn-insert_by_inv a x (y ∷ ys) i = elim (Bool-cases (lt y x)) [
    | inl e ↦ rw e (elim i [
      | inl q ↦ inr (IsIn-insert_by_inv a x ys (inl q))
      | inr (inl q) ↦ inl q
      | inr (inr j) ↦ inr (IsIn-insert_by_inv a x ys (inr j))
    ])
    | inr e ↦ rw e i
  ]

  pub IsIn-sort_by : (a : A) (xs : List A) → IsIn a (sort_by xs) → IsIn a xs
  unfolding sort_by
  IsIn-sort_by a [] i = i
  IsIn-sort_by a (x ∷ xs) i = elim (IsIn-insert_by a x (sort_by xs) i) [
    | inl q ↦ inl q
    | inr j ↦ inr (IsIn-sort_by a xs j)
  ]

  pub IsIn-sort_by_inv : (a : A) (xs : List A) → IsIn a xs → IsIn a (sort_by xs)
  unfolding sort_by
  IsIn-sort_by_inv a [] i = i
  IsIn-sort_by_inv a (x ∷ xs) (inl q) = IsIn-insert_by_inv a x (sort_by xs) (inl q)
  IsIn-sort_by_inv a (x ∷ xs) (inr j) =
      IsIn-insert_by_inv a x (sort_by xs) (inr (IsIn-sort_by_inv a xs j))
