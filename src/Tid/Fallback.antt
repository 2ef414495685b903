-- ===== src/Tid/Fallback.antt =====
-- The search of src/tid.rs by list, subject and author.
use kernel_lore_mcp.Base.{
  ◌≤◌, ◌≡◌, refl, sym, ap, ◌∙◌, inl, inr, Bool, true, false, List, [], ◌∷◌, map, ltb, arith, Option,
  none, some, unwrap_or, Bool-cases, Option-cases, IsIn, All, All-lookup, All-weaken, retain,
  IsIn-map, IsIn-map_inv, IsIn-retain, IsIn-retain_inv, sort_by, IsSorted, IsSorted-sort_by,
  IsIn-sort_by, IsIn-sort_by_inv,
}
use mathlib.Core.Option.{some-injective}
use kernel_lore_mcp.Text.{Text}
use kernel_lore_mcp.Tid.Defs.{
  LiteRow, I64, i64_zero, same_bucket, dated, bucket, in_window, first_in_window, by_subject,
}

abbrev by_date : I64 × Text → I64 × Text → Bool
by_date a b = ltb a.0 b.0

by_date_asym : (a b : I64 × Text) → by_date a b ≡ true → by_date b a ≡ false
by_date_asym a b h = ground arith

clash : {A : Type 0} {b : Bool} → b ≡ false → b ≡ true → A
clash f t = absurd (cc)

head_earliest :
    (x : I64 × Text) (xs : List (I64 × Text)) → IsSorted by_date (x ∷ xs) → All (λ y. x.0 ≤ y.0) xs
head_earliest x [] s = tt
head_earliest x (y ∷ ys) s =
    let le : x.0 ≤ y.0 = let h : ltb y.0 x.0 ≡ false = s.0 in ground arith in
    (
      le,
      All-weaken (λ z. y.0 ≤ z.0) (λ z. x.0 ≤ z.0) (λ z k. omega (arith, le)) ys
          (head_earliest y ys s.1),
    )

IsSorted-tail :
    (x : I64 × Text) (xs : List (I64 × Text)) → IsSorted by_date (x ∷ xs) → IsSorted by_date xs
IsSorted-tail x [] s = tt
IsSorted-tail x (y ∷ ys) s = s.1

-- What the loop over a bucket returns: an entry in the window, and no entry in the window is
-- earlier.
abbrev Earliest : Option I64 → List (I64 × Text) → Text → Type 0
Earliest date xs mid =
    (d : I64) × IsIn (d, mid) xs
    × (in_window date d ≡ true)
    × ((e : I64 × Text) → IsIn e xs → in_window date e.0 ≡ true → d ≤ e.0)

first_in_window-Earliest :
    (date : Option I64) (xs : List (I64 × Text)) (mid : Text)
    → IsSorted by_date xs
    → first_in_window date xs ≡ some mid
    → Earliest date xs mid
unfolding first_in_window
first_in_window-Earliest date [] mid s h = absurd (cc)
first_in_window-Earliest date ((d, m) ∷ rest) mid s h = elim (Bool-cases (in_window date d)) [
  | inl e ↦
      let q : m ≡ mid = some-injective m mid (rw e at h) in
      (
        d,
        inl (rw q refl),
        e,
        λ e' i w. elim i [
          | inl p ↦ (let z : d ≡ e'.0 = ap (λ z. z.0) p in omega (arith, z))
          | inr j ↦ All-lookup (λ y. d ≤ y.0) rest e' (head_earliest (d, m) rest s) j
        ],
      )
  | inr e ↦
      let (d', i, w, least) =
        first_in_window-Earliest date rest mid (IsSorted-tail (d, m) rest s) (rw e at h) in
      (
        d',
        inr i,
        w,
        λ e' i w'. elim i [
          | inl p ↦ clash (sym (ap (λ z. in_window date z.0) p) ∙ e) w'
          | inr j ↦ least e' j w'
        ],
      )
]

abbrev Candidate : List LiteRow → LiteRow → Text → LiteRow → Type 0
Candidate rows row subject r =
    IsIn r rows
    × (same_bucket row subject r ≡ true)
    × (in_window row.date_unix_ns (unwrap_or i64_zero r.date_unix_ns) ≡ true)

-- When the search by subject returns a message, the row has a subject, and the message is that of
-- a row with the same list, subject and author inside the window, of which none is earlier.
pub by_subject-earliest :
    (rows : List LiteRow) (row : LiteRow) (mid : Text)
    → by_subject rows row ≡ some mid
    → (subject : Text) × (r : LiteRow) × (row.subject_normalized ≡ some subject)
      × (r.message_id ≡ mid)
      × Candidate rows row subject r
      × ((x : LiteRow)
          → Candidate rows row subject x
          → unwrap_or i64_zero r.date_unix_ns ≤ unwrap_or i64_zero x.date_unix_ns)
unfolding by_subject bucket
by_subject-earliest rows row mid h = elim (Option-cases row.subject_normalized) [
  | inl e ↦ absurd (let z : ◌≡◌ {A = Option Text} none (some mid) = rw e at h in cc)
  | inr (subject, e) ↦
      let kept = retain (same_bucket row subject) rows in
      let found : Earliest row.date_unix_ns (sort_by by_date (map dated kept)) mid =
        first_in_window-Earliest row.date_unix_ns (sort_by by_date (map dated kept)) mid
          (IsSorted-sort_by by_date by_date_asym (map dated kept)) (rw e at h) in
      let (d, i, w, least) = found in
      let (r, j, q) =
        IsIn-map_inv dated (d, mid) kept (IsIn-sort_by by_date (d, mid) (map dated kept) i) in
      let (k, b) = IsIn-retain_inv (same_bucket row subject) r rows j in
      let qd : unwrap_or i64_zero r.date_unix_ns ≡ d = ap (λ z. z.0) q in
      (
        subject,
        r,
        e,
        ap (λ z. z.1) q,
        (k, b, rw qd w),
        λ x c.
            let (c0, c1, c2) = c in
            rw qd (
              least (dated x)
                (IsIn-sort_by_inv by_date (dated x) (map dated kept)
                  (IsIn-map dated x kept (IsIn-retain (same_bucket row subject) x rows c0 c1)))
                c2),
      )
]
