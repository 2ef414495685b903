-- ===== src/Text/Suffix.antt =====
-- Texts with a common ending.
use kernel_lore_mcp.Base.{
  ◌≡◌, refl, ap, false, [], ◌∷◌, ◌++◌, length, length-append, arith, Bool-cases, inl, inr,
}
use kernel_lore_mcp.Text.Chars.{Text}
use kernel_lore_mcp.Text.Compare.{text_eq, text_eq_iff}

-- Endings of one length that end equal texts are equal, and so is what stands before them.
pub append-eq-append : (a b x y : Text) → length x ≡ length y → a ++ x ≡ b ++ y → (a ≡ b) × (x ≡ y)
append-eq-append [] [] x y h e = (refl, e)
append-eq-append [] (c ∷ b) x y h e = absurd (omega (arith, ap length e, length-append b y))
append-eq-append (c ∷ a) [] x y h e = absurd (omega (arith, ap length e, length-append a x))
append-eq-append (c ∷ a) (d ∷ b) x y h e =
    let tails : a ++ x ≡ b ++ y = cc in
    let heads : c ≡ d = cc in let r = append-eq-append a b x y h tails in (cc (r.0), r.1)

pub text_eq-append_right : (a b x : Text) → text_eq (a ++ x) (b ++ x) ≡ text_eq a b
text_eq-append_right a b x = elim (Bool-cases (text_eq a b)) [
  | inl e ↦ rw e ((text_eq_iff _ _).1 (ap (λ t. t ++ x) ((text_eq_iff a b).0 e)))
  | inr e ↦ elim (Bool-cases (text_eq (a ++ x) (b ++ x))) [
    | inl f ↦
        let q = append-eq-append a b x x refl ((text_eq_iff _ _).0 f) in
        ground (arith, text_eq_iff a b, q.0)
    | inr f ↦ rw (e, f)
  ]
]

-- Different endings of one length make different texts.
pub text_eq-append_ne :
    (a b x y : Text) → length x ≡ length y → text_eq x y ≡ false → text_eq (a ++ x) (b ++ y) ≡ false
text_eq-append_ne a b x y h n = elim (Bool-cases (text_eq (a ++ x) (b ++ y))) [
  | inl f ↦ ground (arith, text_eq_iff x y, (append-eq-append a b x y h ((text_eq_iff _ _).0 f)).1)
  | inr f ↦ f
]
