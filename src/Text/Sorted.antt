-- ===== src/Text/Sorted.antt =====
-- Sorted lists of texts with no text twice: `BTreeSet<String>`, and `sort` with `dedup`.
use kernel_lore_mcp.Base.{
  ◌≡◌, refl, ◌⊎◌, inl, inr, ◌↔◌, true, false, List, [], ◌∷◌, arith, if◌then◌else◌, IsIn, Bool-cases,
}
use kernel_lore_mcp.Text.Chars.{Text}
use kernel_lore_mcp.Text.Compare.{text_eq, text_eq-cases, text_lt}

unfoldable pub set_insert : Text → List Text → List Text
set_insert x [] = x ∷ []
set_insert x (y ∷ ys) =
    let rest = set_insert x ys in
    if text_eq x y then y ∷ ys else if text_lt x y then x ∷ y ∷ ys else y ∷ rest

unfoldable pub to_set : List Text → List Text
unfolding set_insert
to_set [] = []
to_set (x ∷ xs) = set_insert x (to_set xs)

-- every text is before the next
abbrev pub IsStrict : List Text → Type 0
IsStrict [] = Unit
IsStrict (x ∷ []) = Unit
IsStrict (x ∷ y ∷ r) = (text_lt x y ≡ true) × IsStrict (y ∷ r)

pub text_lt_total : (a b : Text) → text_eq a b ≡ false → text_lt a b ≡ false → text_lt b a ≡ true
unfolding text_eq text_lt
text_lt_total [] [] h k = cc
text_lt_total [] (y ∷ ys) h k = cc
text_lt_total (x ∷ xs) [] h k = refl
text_lt_total (x ∷ xs) (y ∷ ys) h k = ground (arith, text_lt_total xs ys)

pub text_lt_trans : (a b c : Text) → text_lt a b ≡ true → text_lt b c ≡ true → text_lt a c ≡ true
unfolding text_lt
text_lt_trans [] (y ∷ b) (z ∷ c) h k = refl
text_lt_trans (x ∷ a) (y ∷ b) (z ∷ c) h k = ground (arith, text_lt_trans a b c)
text_lt_trans [] [] c h k = cc
text_lt_trans [] (y ∷ b) [] h k = cc
text_lt_trans (x ∷ a) [] c h k = cc
text_lt_trans (x ∷ a) (y ∷ b) [] h k = cc

pub text_lt_irrefl : (a : Text) → text_lt a a ≡ false
unfolding text_lt
text_lt_irrefl [] = refl
text_lt_irrefl (x ∷ a) = ground (arith, text_lt_irrefl a)

pub text_lt_asym : (a b : Text) → text_lt a b ≡ true → text_lt b a ≡ false
text_lt_asym a b h = elim (Bool-cases (text_lt b a)) [
  | inl e ↦ cc (text_lt_trans a b a h e, text_lt_irrefl a)
  | inr e ↦ e
]

IsStrict-set_insert_behind :
    (y x : Text) (ys : List Text)
    → text_lt y x ≡ true
    → IsStrict (y ∷ ys)
    → IsStrict (set_insert x ys)
    → IsStrict (y ∷ set_insert x ys)
unfolding set_insert
IsStrict-set_insert_behind y x [] h s t = (h, t)
IsStrict-set_insert_behind y x (z ∷ zs) h s t = elim (Bool-cases (text_eq x z)) [
  | inl e ↦ rw e s
  | inr e ↦ elim (Bool-cases (text_lt x z)) [
    | inl f ↦ rw (e, f) (h, rw (e, f) at t)
    | inr f ↦ rw (e, f) (s.0, rw (e, f) at t)
  ]
]

pub IsStrict-set_insert : (x : Text) (xs : List Text) → IsStrict xs → IsStrict (set_insert x xs)
unfolding set_insert
IsStrict-set_insert x [] s = tt
IsStrict-set_insert x (y ∷ []) s = elim (Bool-cases (text_eq x y)) [
  | inl e ↦ rw e tt
  | inr e ↦ elim (Bool-cases (text_lt x y)) [
    | inl f ↦ rw (e, f) (f, tt)
    | inr f ↦ rw (e, f) (text_lt_total x y e f, tt)
  ]
]
IsStrict-set_insert x (y ∷ z ∷ r) s =
    let later = IsStrict-set_insert x (z ∷ r) s.1 in
    elim (Bool-cases (text_eq x y)) [
      | inl e ↦ rw e s
      | inr e ↦ elim (Bool-cases (text_lt x y)) [
        | inl f ↦ rw (e, f) (f, s)
        | inr f ↦ rw (e, f) (IsStrict-set_insert_behind y x (z ∷ r) (text_lt_total x y e f) s later)
      ]
    ]

pub IsStrict-to_set : (xs : List Text) → IsStrict (to_set xs)
unfolding to_set
IsStrict-to_set [] = tt
IsStrict-to_set (x ∷ xs) = IsStrict-set_insert x (to_set xs) (IsStrict-to_set xs)

pub IsIn-set_insert : (a x : Text) (xs : List Text) → IsIn a (set_insert x xs) → (x ≡ a) ⊎ IsIn a xs
unfolding set_insert
IsIn-set_insert a x [] i = i
IsIn-set_insert a x (y ∷ ys) i =
    let later : IsIn a (set_insert x ys) → (x ≡ a) ⊎ IsIn a (y ∷ ys) =
      λ j. elim (IsIn-set_insert a x ys j) [ inl q ↦ inl q | inr k ↦ inr (inr k) ] in
    elim (Bool-cases (text_eq x y)) [
      | inl e ↦ inr (rw e at i)
      | inr e ↦ elim (Bool-cases (text_lt x y)) [
        | inl f ↦ rw (e, f) at i
        | inr f ↦
            let i' : IsIn a (y ∷ set_insert x ys) = rw (e, f) at i in
            elim i' [ inl q ↦ inr (inl q) | inr j ↦ later j ]
      ]
    ]

pub IsIn-set_insert_inv :
    (a x : Text) (xs : List Text) → (x ≡ a) ⊎ IsIn a xs → IsIn a (set_insert x xs)
unfolding set_insert
IsIn-set_insert_inv a x [] i = i
IsIn-set_insert_inv a x (y ∷ ys) i = elim (text_eq-cases x y) [
  | inl (e, q) ↦ rw e (elim i [ inl r ↦ inl (rw (← q) r) | inr j ↦ j ])
  | inr (e, _) ↦ elim (Bool-cases (text_lt x y)) [
    | inl f ↦ rw (e, f) i
    | inr f ↦
        rw (e, f)
          (elim i [
            | inl q ↦ inr (IsIn-set_insert_inv a x ys (inl q))
            | inr (inl q) ↦ inl q
            | inr (inr j) ↦ inr (IsIn-set_insert_inv a x ys (inr j))
          ])
  ]
]

IsIn-to_set_out : (a : Text) (xs : List Text) → IsIn a (to_set xs) → IsIn a xs
unfolding to_set
IsIn-to_set_out a [] i = i
IsIn-to_set_out a (x ∷ xs) i = elim (IsIn-set_insert a x (to_set xs) i) [
  | inl q ↦ inl q
  | inr j ↦ inr (IsIn-to_set_out a xs j)
]

IsIn-to_set_into : (a : Text) (xs : List Text) → IsIn a xs → IsIn a (to_set xs)
unfolding to_set
IsIn-to_set_into a [] i = i
IsIn-to_set_into a (x ∷ xs) (inl q) = IsIn-set_insert_inv a x (to_set xs) (inl q)
IsIn-to_set_into a (x ∷ xs) (inr j) =
    IsIn-set_insert_inv a x (to_set xs) (inr (IsIn-to_set_into a xs j))

-- A set holds exactly what was put into it.
pub IsIn-to_set : (a : Text) (xs : List Text) → IsIn a (to_set xs) ↔ IsIn a xs
IsIn-to_set a xs = (IsIn-to_set_out a xs, IsIn-to_set_into a xs)
