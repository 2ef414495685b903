-- ===== src/Error.antt =====
-- src/error.rs: the error type that all components share. The texts inside the variants are for
-- people and are left out; `query_timeout` keeps its limit.
use kernel_lore_mcp.Base.{ℕ, ◌≡◌, refl, ap, ◌∙◌, ◌⊎◌, inl, inr, ◌↔◌, Option, none, some}

pub data Error : Type 0 where
  query_parse regex_complexity query_cancelled invalid_cursor io gix mail_parse tantivy : Error
  arrow parquet state sync sqlite msgpack_encode msgpack_decode : Error
  query_timeout : ℕ → Error

pub data Result {ℓ} (A : Type ℓ) : Type ℓ where
  ok : A → Result A
  err : Error → Result A

-- `Result<()>`
abbrev pub Done : Type 0
Done = Result (Unit {0})

-- The Python exception that an error becomes.
pub data PyException : Type 0 where
  value_error runtime_error : PyException

pub py_exception : Error → PyException
py_exception query_parse = value_error
py_exception regex_complexity = value_error
py_exception invalid_cursor = value_error
py_exception _ = runtime_error

-- `ok_or_else`, `map_err`
abbrev pub ok_or {ℓ} : {A : Type ℓ} → Error → Option A → Result A
ok_or e none = err e
ok_or e (some a) = ok a

module _ {ℓ κ} {A : Type ℓ} {B : Type κ} where
  infixl 5 ◌>>=◌
  -- the `?` operator: an error returns at once
  abbrev pub ◌>>=◌ : Result A → (A → Result B) → Result B
  err e >>= next = err e
  ok a >>= next = next a

  -- A chain that succeeds has a first step that succeeded.
  pub >>=-eq-ok :
      (first : Result A) (next : A → Result B) {b : B}
      → (first >>= next) ≡ ok b
      → (a : A) × (first ≡ ok a) × (next a ≡ ok b)
  >>=-eq-ok (err e) next h = cc
  >>=-eq-ok (ok a) next h = (a, refl, h)

pub err-injective : {A : Type 0} (e f : Error) → ◌≡◌ {A = Result A} (err e) (err f) → e ≡ f
err-injective e f h = cc

pub Result-cases :
    {A : Type 0} (r : Result A) → ((e : Error) × (r ≡ err e)) ⊎ ((a : A) × (r ≡ ok a))
Result-cases (err e) = inl (e, refl)
Result-cases (ok a) = inr (a, refl)

pub ok-injective : {A : Type 0} (a b : A) → ◌≡◌ {A = Result A} (ok a) (ok b) → a ≡ b
ok-injective a b h = cc

-- A chain fails with the error of its first step that fails.
pub >>=-eq-err :
    {A B : Type 0} (r : Result A) (next : A → Result B) (e : Error)
    → ((r >>= next) ≡ err e) ↔ ((r ≡ err e) ⊎ ((a : A) × (r ≡ ok a) × (next a ≡ err e)))
>>=-eq-err (err f) next e = (
  λ h. inl (ap err (err-injective f e h)),
  λ h. elim h [ inl q ↦ ap err (err-injective f e q) | inr (a, q, _) ↦ absurd (cc) ],
)
>>=-eq-err (ok a) next e = (
  λ h. inr (a, refl, h),
  λ h. elim h [ inl q ↦ absurd (cc) | inr (b, q, k) ↦ ap next (ok-injective a b q) ∙ k ],
)

infixl 5 ◌>>◌
abbrev pub ◌>>◌ {ℓ} : {B : Type ℓ} → Done → Result B → Result B
check >> then_do = check >>= λ _. then_do
