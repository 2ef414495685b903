-- ===== src/Text/Decimal.antt =====
-- Decimal numbers: `to_string` and `str::parse` of an unsigned integer.
use kernel_lore_mcp.Base.{
  ℕ, zero, suc, ◌+◌, ◌-◌, ◌*◌, ◌/◌, ◌%◌, ◌≤◌, ◌<◌, ◌≡◌, refl, true, inl, inr, [], ◌∷◌, arith, ◌==◌,
  ltb, if◌then◌else◌, Option, none, some, Bool-cases, All, ◌≢◌,
}
use native.Mathlib.Decide.{dec_lt}
use native.Mathlib.Nat.{zero-add}
use kernel_lore_mcp.Text.Chars.{Text, is_digit}

-- the digits of `n`, in front of `out`; one unit of fuel for each digit
unfoldable pub digits_onto : ℕ → ℕ → Text → Text
digits_onto zero n out = out
digits_onto (suc f) n out =
    let more = digits_onto f (n / 10) ((b'0' + n % 10) ∷ out) in
    if ltb n 10 then (b'0' + n) ∷ out else more

-- `format!("{n}")`
unfoldable pub to_string : ℕ → Text
unfolding digits_onto
to_string n = digits_onto (suc n) n []

-- the checked accumulation of an unsigned integer below `bound`
unfoldable pub parse_digits : ℕ → ℕ → Text → Option ℕ
parse_digits bound acc [] = some acc
parse_digits bound acc (c ∷ s) =
    let next = acc * 10 + (c - b'0') in
    let rest = parse_digits bound next s in
    if is_digit c then (if ltb next bound then rest else none) else none

-- `str::parse::<uN>()` with `bound` = 2 ^ N: a plus sign may stand in front
unfoldable pub parse_unsigned : ℕ → Text → Option ℕ
unfolding parse_digits
parse_unsigned bound [] = none
parse_unsigned bound (c ∷ []) = if c == b'+' then none else parse_digits bound 0 (c ∷ [])
parse_unsigned bound (c ∷ d ∷ s) =
    if c == b'+' then parse_digits bound 0 (d ∷ s) else parse_digits bound 0 (c ∷ d ∷ s)

abbrev pub u32_bound : ℕ
u32_bound = 4294967296

abbrev pub u64_bound : ℕ
u64_bound = 18446744073709551616

-- What is parsed fits the width.
pub parse_digits-lt :
    (bound acc : ℕ) (s : Text) (n : ℕ) → acc < bound → parse_digits bound acc s ≡ some n → n < bound
unfolding parse_digits
parse_digits-lt bound acc [] n h e = ground arith
parse_digits-lt bound acc (c ∷ s) n h e =
    ground (arith, parse_digits-lt bound (acc * 10 + (c - b'0')) s n)

pub parse_unsigned-lt :
    (bound : ℕ) (s : Text) (n : ℕ) → 0 < bound → parse_unsigned bound s ≡ some n → n < bound
unfolding parse_unsigned
parse_unsigned-lt bound [] n h e = cc
parse_unsigned-lt bound (c ∷ []) n h e = ground (arith, parse_digits-lt bound 0 (c ∷ []) n)
parse_unsigned-lt bound (c ∷ d ∷ s) n h e =
    ground (arith, parse_digits-lt bound 0 (d ∷ s) n, parse_digits-lt bound 0 (c ∷ d ∷ s) n)

parse_digits-digit :
    (bound acc d : ℕ) (s : Text)
    → d < 10
    → acc * 10 + d < bound
    → parse_digits bound acc ((b'0' + d) ∷ s) ≡ parse_digits bound (acc * 10 + d) s
parse_digits-digit bound acc d s h k =
    let e : b'0' + d - b'0' ≡ d = omega arith in unfold parse_digits in ground (arith, e)

digits_onto_small : (f n : ℕ) (out : Text) → n < 10 → digits_onto (suc f) n out ≡ (b'0' + n) ∷ out
unfolding digits_onto
digits_onto_small f n out h = ground arith

digits_onto_large :
    (f n : ℕ) (out : Text)
    → 10 ≤ n
    → digits_onto (suc f) n out ≡ digits_onto f (n / 10) ((b'0' + n % 10) ∷ out)
unfolding digits_onto
digits_onto_large f n out h = ground arith

-- Reading the digits of `n` from 0 is reading what follows them from `n`.
parse_digits-digits_onto :
    (bound f n : ℕ) (out : Text)
    → n < f
    → n < bound
    → parse_digits bound 0 (digits_onto f n out) ≡ parse_digits bound n out
parse_digits-digits_onto bound zero n out h k = elim h [ ]
parse_digits-digits_onto bound (suc f) n out h k = elim (dec_lt n 10) [
  | yes e ↦
      rw (digits_onto_small f n out e, parse_digits-digit bound 0 n out e (omega arith), zero-add n)
  | no e ↦
      let q : n / 10 * 10 + n % 10 ≡ n = omega arith in
      rw (
        digits_onto_large f n out (omega arith),
        parse_digits-digits_onto bound f (n / 10) ((b'0' + n % 10) ∷ out) (omega arith)
            (omega arith),
        parse_digits-digit bound (n / 10) (n % 10) out (omega arith) (omega arith),
        q,
      )
]

digits_onto-ne-nil : (f n d : ℕ) (out : Text) → digits_onto f n (d ∷ out) ≢ []
unfolding digits_onto
digits_onto-ne-nil zero n d out = λ e. cc
digits_onto-ne-nil (suc f) n d out =
    ground (arith, digits_onto-ne-nil f (n / 10) (b'0' + n % 10) (d ∷ out))

pub to_string-ne-nil : (n : ℕ) → to_string n ≢ []
unfolding to_string
to_string-ne-nil n = ground (arith, digits_onto-ne-nil n (n / 10) (b'0' + n % 10) [])

digits_onto-digits :
    (f n : ℕ) (out : Text)
    → All (λ c. is_digit c ≡ true) out
    → All (λ c. is_digit c ≡ true) (digits_onto f n out)
unfolding digits_onto
digits_onto-digits zero n out h = h
digits_onto-digits (suc f) n out h = elim (Bool-cases (ltb n 10)) [
  | inl e ↦ rw e (ground arith, h)
  | inr e ↦ rw e (digits_onto-digits f (n / 10) _ (ground arith, h))
]

pub to_string-digits : (n : ℕ) → All (λ c. is_digit c ≡ true) (to_string n)
unfolding to_string
to_string-digits n = digits_onto-digits (suc n) n [] tt

-- Digits alone are read from 0.
pub parse_unsigned_digits :
    (bound : ℕ) (s : Text)
    → s ≢ []
    → All (λ c. is_digit c ≡ true) s
    → parse_unsigned bound s ≡ parse_digits bound 0 s
unfolding parse_unsigned
parse_unsigned_digits bound [] h d = absurd (h refl)
parse_unsigned_digits bound (c ∷ []) h d = ground arith
parse_unsigned_digits bound (c ∷ e ∷ s) h d = ground arith

-- A number below the bound is read back from its digits.
pub parse_unsigned-to_string :
    (bound n : ℕ) → n < bound → parse_unsigned bound (to_string n) ≡ some n
parse_unsigned-to_string bound n h =
    rw (parse_unsigned_digits bound (to_string n) (to_string-ne-nil n) (to_string-digits n))
      (unfold to_string parse_digits in parse_digits-digits_onto bound (suc n) n [] (omega arith) h)

pub parse_digits-to_string : (bound n : ℕ) → n < bound → parse_digits bound 0 (to_string n) ≡ some n
parse_digits-to_string bound n h =
    unfold to_string parse_digits in parse_digits-digits_onto bound (suc n) n [] (omega arith) h

-- Zeros in front change nothing.
pub parse_digits-zero :
    (bound : ℕ) (s : Text) → 0 < bound → parse_digits bound 0 (b'0' ∷ s) ≡ parse_digits bound 0 s
unfolding parse_digits
parse_digits-zero bound s h = ground arith
