-- ===== src/PathTier/Runs.antt =====
-- Positions in a sorted list of texts, and the run of those with a prefix.
use kernel_lore_mcp.Base.{
  ℕ, suc, ◌+◌, ◌≤◌, ◌<◌, ◌≡◌, refl, sym, ap, ◌∙◌, ◌⊎◌, inl, inr, true, false, List, [], ◌∷◌, length,
  get_elem?, IsIn, All, All-lookup, All-weaken, some, Bool-cases, arith,
}
use kernel_lore_mcp.Text.{Text, text_lt, starts_with, strip_prefix}
use kernel_lore_mcp.Text.Sorted.{IsStrict, text_lt_trans}
use kernel_lore_mcp.PathTier.Defs.{u32, prefix_run}

-- The text stands at that index, where the list starts at a given index.
abbrev pub IsAt : ℕ → ℕ → Text → List Text → Type 0
IsAt s i p [] = ⊥
IsAt s i p (x ∷ xs) = ((s ≡ i) × (x ≡ p)) ⊎ IsAt (suc s) i p xs

pub IsAt-get :
    (s i : ℕ) (p : Text) (xs : List Text)
    → IsAt s i p xs
    → (k : ℕ) × (i ≡ s + k) × (get_elem? xs k ≡ some p)
IsAt-get s i p [] a = elim a [ ]
IsAt-get s i p (x ∷ xs) (inl (e, q)) = (0, omega (arith, e), ap some q)
IsAt-get s i p (x ∷ xs) (inr a) =
    let (k, e, q) = IsAt-get (suc s) i p xs a in (suc k, omega (arith, e), q)

pub IsAt-index : (p : Text) (xs : List Text) (s : ℕ) → IsIn p xs → (i : ℕ) × IsAt s i p xs
IsAt-index p [] s i = elim i [ ]
IsAt-index p (x ∷ xs) s (inl q) = (s, inl (refl, q))
IsAt-index p (x ∷ xs) s (inr j) = let (i, a) = IsAt-index p xs (suc s) j in (i, inr a)

pub IsAt-bound : (s i : ℕ) (p : Text) (xs : List Text) → IsAt s i p xs → i < s + length xs
IsAt-bound s i p [] a = elim a [ ]
IsAt-bound s i p (x ∷ xs) (inl (e, q)) = omega (arith, e)
IsAt-bound s i p (x ∷ xs) (inr a) = omega (arith, IsAt-bound (suc s) i p xs a)

pub IsAt-IsIn : (s i : ℕ) (p : Text) (xs : List Text) → IsAt s i p xs → IsIn p xs
IsAt-IsIn s i p [] a = a
IsAt-IsIn s i p (x ∷ xs) (inl (e, q)) = inl q
IsAt-IsIn s i p (x ∷ xs) (inr a) = inr (IsAt-IsIn (suc s) i p xs a)

pub u32_small : (i : ℕ) → i < 4294967296 → u32 i ≡ i
u32_small i h = omega (arith, h)

-- A text with the prefix is not before it.
pub starts_with-not_lt : (pre p : Text) → starts_with pre p ≡ true → text_lt p pre ≡ false
unfolding starts_with strip_prefix text_lt
starts_with-not_lt [] [] h = refl
starts_with-not_lt [] (c ∷ s) h = refl
starts_with-not_lt (a ∷ pre) [] h = ground arith
starts_with-not_lt (a ∷ pre) (c ∷ s) h = ground (arith, starts_with-not_lt pre s)

-- Behind a text that is past the prefix and does not have it, no text has it.
past_prefix :
    (pre x p : Text)
    → text_lt x pre ≡ false
    → starts_with pre x ≡ false
    → text_lt x p ≡ true
    → starts_with pre p ≡ false
unfolding starts_with strip_prefix text_lt
past_prefix [] x p h k l = ground arith
past_prefix (a ∷ pre) [] p h k l = ground arith
past_prefix (a ∷ pre) (c ∷ s) [] h k l = refl
past_prefix (a ∷ pre) (c ∷ s) (e ∷ t) h k l = ground (arith, past_prefix pre s t)

-- In a sorted list, all that follows is after the first.
pub IsStrict-after :
    (x : Text) (xs : List Text) → IsStrict (x ∷ xs) → All (λ y. text_lt x y ≡ true) xs × IsStrict xs
IsStrict-after x [] s = (tt, tt)
IsStrict-after x (y ∷ ys) s =
    let (a, _) = IsStrict-after y ys s.1 in
    (
      (
        s.0,
        All-weaken (λ z. text_lt y z ≡ true) (λ z. text_lt x z ≡ true)
            (λ z h. text_lt_trans x y z s.0 h) ys a,
      ),
      s.1,
    )

pub prefix_run-IsAt :
    (pre : Text) (s i : ℕ) (xs : List Text)
    → s + length xs ≤ 4294967296
    → IsIn i (prefix_run pre s xs)
    → (p : Text) × IsAt s i p xs × (starts_with pre p ≡ true)
unfolding prefix_run
prefix_run-IsAt pre s i [] b h = elim h [ ]
prefix_run-IsAt pre s i (x ∷ xs) b h = elim (Bool-cases (starts_with pre x)) [
  | inl e ↦
      let h' : (u32 s ≡ i) ⊎ IsIn i (prefix_run pre (suc s) xs) = rw e at h in
      elim h' [
        | inl q ↦ (x, inl (sym (u32_small s (omega (arith, b))) ∙ q, refl), e)
        | inr j ↦
            let (p, a, t) = prefix_run-IsAt pre (suc s) i xs (omega (arith, b)) j in (p, inr a, t)
      ]
  | inr e ↦ let h' : ⊥ = rw e at h in absurd h'
]

pub IsIn-prefix_run :
    (pre : Text) (s : ℕ) (xs : List Text) (p : Text)
    → s + length xs ≤ 4294967296
    → IsStrict xs
    → All (λ x. text_lt x pre ≡ false) xs
    → IsIn p xs
    → starts_with pre p ≡ true
    → (i : ℕ) × IsIn i (prefix_run pre s xs) × IsAt s i p xs
unfolding prefix_run
IsIn-prefix_run pre s [] p b o a i t = elim i [ ]
IsIn-prefix_run pre s (x ∷ xs) p b o a (inl q) t =
    let e : starts_with pre x ≡ true = rw q t in
    (s, rw e (inl (u32_small s (omega (arith, b)))), inl (refl, q))
IsIn-prefix_run pre s (x ∷ xs) p b o a (inr j) t =
    let (after, o') = IsStrict-after x xs o in
    let (i, k, at) = IsIn-prefix_run pre (suc s) xs p (omega (arith, b)) o' a.1 j t in
    elim (Bool-cases (starts_with pre x)) [
      | inl e ↦ (i, rw e (inr k), inr at)
      | inr e ↦ absurd (
          clash
            (sym t ∙ past_prefix pre x p a.0 e (All-lookup (λ y. text_lt x y ≡ true) xs p after j)))
    ]
  where
    clash : true ≡ false → ⊥
    clash h = cc
