-- ===== src/Base/Sets.antt =====
-- Predicates on the elements of a list, by recursion.
use mathlib.Core.Path.{◌≡◌, refl, ap}
use mathlib.Core.Logic.{◌⊎◌, inl, inr}
use mathlib.Core.Bool.{Bool, true}
use mathlib.Core.List.{List, [], ◌∷◌, ◌++◌, map}
use Prim.Native.Nat.{ℕ, zero, suc}
use kernel_lore_mcp.Base.Tests.{Bool-cases}
use kernel_lore_mcp.Base.Lists.{retain, take}

module _ {A : Type 0} where
  abbrev pub All : (A → Type 0) → List A → Type 0
  All P [] = Unit
  All P (x ∷ xs) = P x × All P xs

  abbrev pub Any : (A → Type 0) → List A → Type 0
  Any P [] = ⊥
  Any P (x ∷ xs) = P x ⊎ Any P xs

  abbrev pub IsIn : A → List A → Type 0
  IsIn a = Any (λ x. x ≡ a)

  pub All-append : (P : A → Type 0) (xs ys : List A) → All P xs → All P ys → All P (xs ++ ys)
  All-append P [] ys h k = k
  All-append P (x ∷ xs) ys h k = (h.0, All-append P xs ys h.1 k)

  pub All-take : (P : A → Type 0) (n : ℕ) (xs : List A) → All P xs → All P (take n xs)
  All-take P zero xs h = tt
  All-take P (suc n) [] h = tt
  All-take P (suc n) (x ∷ xs) h = (h.0, All-take P n xs h.1)

  -- What is retained passes the test, and keeps what held before.
  pub All-retain : (P : A → Type 0) (p : A → Bool) (xs : List A) → All P xs → All P (retain p xs)
  All-retain P p [] h = tt
  All-retain P p (x ∷ xs) h = elim (Bool-cases (p x)) [
    | inl e ↦ rw e (h.0, All-retain P p xs h.1)
    | inr e ↦ rw e (All-retain P p xs h.1)
  ]

  pub All-retain_self : (p : A → Bool) (xs : List A) → All (λ x. p x ≡ true) (retain p xs)
  All-retain_self p [] = tt
  All-retain_self p (x ∷ xs) = elim (Bool-cases (p x)) [
    | inl e ↦ rw e (e, All-retain_self p xs)
    | inr e ↦ rw e (All-retain_self p xs)
  ]

  pub All-weaken : (P Q : A → Type 0) → ((x : A) → P x → Q x) → (xs : List A) → All P xs → All Q xs
  All-weaken P Q f [] h = tt
  All-weaken P Q f (x ∷ xs) h = (f x h.0, All-weaken P Q f xs h.1)

  pub All-lookup : (P : A → Type 0) (xs : List A) (a : A) → All P xs → IsIn a xs → P a
  All-lookup P [] a h i = elim i [ ]
  All-lookup P (x ∷ xs) a h (inl e) = rw e at h.0
  All-lookup P (x ∷ xs) a h (inr i) = All-lookup P xs a h.1 i

  pub All-tabulate : (P : A → Type 0) (xs : List A) → ((a : A) → IsIn a xs → P a) → All P xs
  All-tabulate P [] f = tt
  All-tabulate P (x ∷ xs) f = (f x (inl refl), All-tabulate P xs (λ a i. f a (inr i)))

  pub IsIn-append_left : (a : A) (xs ys : List A) → IsIn a xs → IsIn a (xs ++ ys)
  IsIn-append_left a [] ys i = elim i [ ]
  IsIn-append_left a (x ∷ xs) ys (inl e) = inl e
  IsIn-append_left a (x ∷ xs) ys (inr i) = inr (IsIn-append_left a xs ys i)

  pub IsIn-append_right : (a : A) (xs ys : List A) → IsIn a ys → IsIn a (xs ++ ys)
  IsIn-append_right a [] ys i = i
  IsIn-append_right a (x ∷ xs) ys i = inr (IsIn-append_right a xs ys i)

  pub IsIn-append : (a : A) (xs ys : List A) → IsIn a (xs ++ ys) → IsIn a xs ⊎ IsIn a ys
  IsIn-append a [] ys i = inr i
  IsIn-append a (x ∷ xs) ys (inl e) = inl (inl e)
  IsIn-append a (x ∷ xs) ys (inr i) = elim (IsIn-append a xs ys i) [
    | inl j ↦ inl (inr j)
    | inr j ↦ inr j
  ]

  pub IsIn-retain :
      (p : A → Bool) (a : A) (xs : List A) → IsIn a xs → p a ≡ true → IsIn a (retain p xs)
  IsIn-retain p a [] i h = elim i [ ]
  IsIn-retain p a (x ∷ xs) (inl e) h = rw (e, h) (inl refl)
  IsIn-retain p a (x ∷ xs) (inr i) h = elim (Bool-cases (p x)) [
    | inl e ↦ rw e (inr (IsIn-retain p a xs i h))
    | inr e ↦ rw e (IsIn-retain p a xs i h)
  ]

  pub IsIn-retain_inv :
      (p : A → Bool) (a : A) (xs : List A) → IsIn a (retain p xs) → IsIn a xs × (p a ≡ true)
  IsIn-retain_inv p a [] i = elim i [ ]
  IsIn-retain_inv p a (x ∷ xs) i =
      let later : IsIn a (retain p xs) → IsIn a (x ∷ xs) × (p a ≡ true) =
        λ j. let r = IsIn-retain_inv p a xs j in (inr r.0, r.1) in
      elim (Bool-cases (p x)) [
        | inl e ↦
            let i' : (x ≡ a) ⊎ IsIn a (retain p xs) = rw e at i in
            elim i' [ inl q ↦ (inl q, rw (← q) e) | inr j ↦ later j ]
        | inr e ↦ later (rw e at i)
      ]

module _ {A B : Type 0} where
  pub IsIn-map : (f : A → B) (a : A) (xs : List A) → IsIn a xs → IsIn (f a) (map f xs)
  IsIn-map f a [] i = elim i [ ]
  IsIn-map f a (x ∷ xs) (inl e) = inl (ap f e)
  IsIn-map f a (x ∷ xs) (inr i) = inr (IsIn-map f a xs i)

  pub IsIn-map_inv :
      (f : A → B) (b : B) (xs : List A) → IsIn b (map f xs) → (a : A) × IsIn a xs × (f a ≡ b)
  IsIn-map_inv f b [] i = elim i [ ]
  IsIn-map_inv f b (x ∷ xs) (inl e) = (x, inl refl, e)
  IsIn-map_inv f b (x ∷ xs) (inr i) = let (a, j, e) = IsIn-map_inv f b xs i in (a, inr j, e)
