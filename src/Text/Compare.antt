-- ===== src/Text/Compare.antt =====
-- Equality and the order of texts. The order is that of the UTF-8 bytes, which is that of the
-- scalar values.
use kernel_lore_mcp.Base.{
  ◌≡◌, refl, Bool, true, false, ◌&&◌, ◌||◌, [], ◌∷◌, arith, ◌==◌, ltb, ◌↔◌, ◌⊎◌, inl, inr, ◌≢◌,
  Bool-cases,
}
use kernel_lore_mcp.Text.Chars.{Text}

unfoldable pub text_eq : Text → Text → Bool
text_eq [] [] = true
text_eq (x ∷ xs) (y ∷ ys) = x == y && text_eq xs ys
text_eq _ _ = false

pub text_eq_iff : (a b : Text) → (text_eq a b ≡ true) ↔ (a ≡ b)
unfolding text_eq
text_eq_iff [] [] = ground arith
text_eq_iff [] (y ∷ ys) = ground arith
text_eq_iff (x ∷ xs) [] = ground arith
text_eq_iff (x ∷ xs) (y ∷ ys) = ground (arith, text_eq_iff xs ys)

pub text_eq_refl : (a : Text) → text_eq a a ≡ true
text_eq_refl a = (text_eq_iff a a).1 refl

-- A split on whether two texts are equal, with the value of the test.
pub text_eq-cases :
    (a b : Text) → ((text_eq a b ≡ true) × (a ≡ b)) ⊎ ((text_eq a b ≡ false) × (a ≢ b))
text_eq-cases a b = elim (Bool-cases (text_eq a b)) [
  | inl e ↦ inl (e, (text_eq_iff a b).0 e)
  | inr e ↦ inr (e, λ q. ground (arith, text_eq_iff a b))
]

unfoldable pub text_lt : Text → Text → Bool
text_lt [] [] = false
text_lt [] (y ∷ ys) = true
text_lt (x ∷ xs) [] = false
text_lt (x ∷ xs) (y ∷ ys) = ltb x y || (x == y && text_lt xs ys)
