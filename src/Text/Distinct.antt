-- ===== src/Text/Distinct.antt =====
-- Lists of texts that hold each text once: `if !xs.contains(&x) { xs.push(x) }`.
use kernel_lore_mcp.Base.{
  ◌≡◌, refl, sym, ◌⊎◌, inl, inr, ◌↔◌, Bool, true, false, List, [], ◌∷◌, ◌++◌, if◌then◌else◌, IsIn,
  IsIn-append, IsIn-append_left, IsIn-append_right, Bool-cases, subst,
}
use kernel_lore_mcp.Text.Chars.{Text}
use kernel_lore_mcp.Text.Compare.{text_eq, text_eq-cases}

-- `contains`
unfoldable pub listed : Text → List Text → Bool
listed x [] = false
listed x (y ∷ ys) = let later = listed x ys in if text_eq y x then true else later

unfoldable pub push_new : Text → List Text → List Text
push_new x xs = if listed x xs then xs else xs ++ x ∷ []

abbrev pub IsDistinct : List Text → Type 0
IsDistinct [] = Unit
IsDistinct (x ∷ xs) = (¬ IsIn x xs) × IsDistinct xs

pub listed_iff : (x : Text) (xs : List Text) → (listed x xs ≡ true) ↔ IsIn x xs
unfolding listed
listed_iff x [] = (λ h. absurd (cc), λ i. elim i [ ])
listed_iff x (y ∷ ys) =
    let (f, g) = listed_iff x ys in
    elim (text_eq-cases y x) [
      | inl (e, q) ↦ (λ h. inl q, λ i. rw e refl)
      | inr (e, n) ↦
          (λ h. inr (f (rw e at h)), λ i. elim i [ inl q ↦ absurd (n q) | inr j ↦ rw e (g j) ])
    ]

snoc-IsDistinct :
    (x : Text) (xs : List Text) → ¬ IsIn x xs → IsDistinct xs → IsDistinct (xs ++ x ∷ [])
snoc-IsDistinct x [] n d = (λ i. elim i [ ], tt)
snoc-IsDistinct x (y ∷ ys) n d = (
  λ i. elim (IsIn-append y ys (x ∷ []) i) [
    | inl j ↦ d.0 j
    | inr (inl q) ↦ n (inl (sym q))
    | inr (inr j) ↦ elim j [ ]
  ],
  snoc-IsDistinct x ys (λ i. n (inr i)) d.1,
)

pub push_new-IsDistinct : (x : Text) (xs : List Text) → IsDistinct xs → IsDistinct (push_new x xs)
unfolding push_new
push_new-IsDistinct x xs d = elim (Bool-cases (listed x xs)) [
  | inl e ↦ rw e d
  | inr e ↦ rw e (snoc-IsDistinct x xs (λ i. clash e ((listed_iff x xs).1 i)) d)
]
  where
    clash : {b : Bool} → b ≡ false → b ≡ true → ⊥
    clash f t = cc

pub IsIn-push_new : (a x : Text) (xs : List Text) → IsIn a (push_new x xs) ↔ (IsIn a xs ⊎ (x ≡ a))
unfolding push_new
IsIn-push_new a x xs = elim (Bool-cases (listed x xs)) [
  | inl e ↦ rw e (
    λ i. inl i,
    λ i. elim i [ inl j ↦ j | inr q ↦ subst (λ z. IsIn z xs) q ((listed_iff x xs).0 e) ],
  )
  | inr e ↦ rw e (
    λ i. elim (IsIn-append a xs (x ∷ []) i) [
      | inl j ↦ inl j
      | inr (inl q) ↦ inr q
      | inr (inr j) ↦ elim j [ ]
    ],
    λ i. elim i [
      | inl j ↦ IsIn-append_left a xs (x ∷ []) j
      | inr q ↦ IsIn-append_right a xs (x ∷ []) (inl q)
    ],
  )
]
