-- ===== src/Reader/Answers.antt =====
-- What a scan answers.
use kernel_lore_mcp.Base.{
  ℕ, suc, ◌+◌, ◌≤◌, ◌<◌, ◌≡◌, refl, sym, ◌∙◌, ap, subst, ◌⊎◌, inl, inr, Bool, true, false, List, [],
  ◌∷◌, ◌++◌, ltb, length, length-append, IsIn, IsIn-append, IsIn-append_left, IsIn-append_right,
  Option, Bool-cases, sort_by, insert_by, IsSorted, IsSorted-sort_by, IsIn-sort_by,
  IsIn-sort_by_inv, arith, append_assoc,
}
use kernel_lore_mcp.Error.{Error, Result, ok, err, ◌>>=◌}
use kernel_lore_mcp.Text.{Text}
use kernel_lore_mcp.Text.Keyed.{IsKeyed, IsKeyed-sort_by, IsKeyed-append_left, IsKeyed-without}
use kernel_lore_mcp.Reader.Rows.{MessageRow, EqField}
use kernel_lore_mcp.Reader.Scan.{
  File, Walked, going, stopped, pushed, scan_rows, scan_files, scan, is_newer, eq_keeps, eq_scan,
  in_list_keeps, in_list_scan,
}
use kernel_lore_mcp.Reader.Freshest.{
  rows_of_files, SomeFails, IsFirst, firsts, IsFirst-firsts, firsts-IsKeyed, taken, Reads, Whole,
  stopped-full, pushed-scan_rows, scan_files-Reads,
}

module _ {A : Type 0} (lt : A → A → Bool) where
  length-insert_by : (x : A) (xs : List A) → length (insert_by lt x xs) ≡ suc (length xs)
  unfolding insert_by
  length-insert_by x [] = refl
  length-insert_by x (y ∷ ys) = elim (Bool-cases (lt y x)) [
    | inl e ↦ rw e (ap (λ n. suc n) (length-insert_by x ys))
    | inr e ↦ rw e refl
  ]

  length-sort_by : (xs : List A) → length (sort_by lt xs) ≡ length xs
  unfolding sort_by
  length-sort_by [] = refl
  length-sort_by (x ∷ xs) = length-insert_by x (sort_by lt xs) ∙ ap (λ n. suc n) (length-sort_by xs)

module _ (keep : MessageRow → Bool) (limit : ℕ) where
  -- A row that is taken was there before, or is one of the rows to keep.
  abbrev IsFrom : List MessageRow → List MessageRow → MessageRow → Type 0
  IsFrom rows out r = IsIn r out ⊎ (IsIn r rows × (keep r ≡ true))

  pushed_out :
      (x : MessageRow) (rows out : List MessageRow) (r : MessageRow)
      → keep x ≡ true
      → IsIn r (out ++ x ∷ [])
      → IsFrom (x ∷ rows) out r
  pushed_out x rows out r k i = elim (IsIn-append r out (x ∷ []) i) [
    | inl j ↦ inl j
    | inr (inl q) ↦ inr (inl q, subst (λ z. keep z ≡ true) q k)
    | inr (inr z) ↦ elim z [ ]
  ]

  taken-IsFrom :
      (rows out : List MessageRow) (r : MessageRow)
      → IsIn r (taken keep limit rows out)
      → IsFrom rows out r
  unfolding taken
  taken-IsFrom [] out r i = inl i
  taken-IsFrom (x ∷ rows) out r i = elim (Bool-cases (keep x)) [
    | inl k ↦ elim (Bool-cases (ltb (length out + 1) limit)) [
      | inl b ↦ elim (taken-IsFrom rows (out ++ x ∷ []) r (rw (k, b) at i)) [
        | inl j ↦ pushed_out x rows out r k j
        | inr (j, h) ↦ inr (inr j, h)
      ]
      | inr b ↦ pushed_out x rows out r k (rw (k, b) at i)
    ]
    | inr k ↦ elim (taken-IsFrom rows out r (rw k at i)) [
      | inl j ↦ inl j
      | inr (j, h) ↦ inr (inr j, h)
    ]
  ]

  clash : true ≡ false → ⊥
  clash h = cc

  taken-all :
      (rows out : List MessageRow)
      → length (taken keep limit rows out) < limit
      → (r : MessageRow) → IsFrom rows out r
      → IsIn r (taken keep limit rows out)
  unfolding taken
  taken-all [] out h r (inl i) = i
  taken-all [] out h r (inr (i, k)) = elim i [ ]
  taken-all (x ∷ rows) out h r i = elim (Bool-cases (keep x)) [
    | inl k ↦ elim (Bool-cases (ltb (length out + 1) limit)) [
      | inl b ↦
          rw (k, b)
            (taken-all rows (out ++ x ∷ []) (rw (k, b) at h) r (elim i [
              | inl j ↦ inl (IsIn-append_left r out (x ∷ []) j)
              | inr (inl q, _) ↦ inl (IsIn-append_right r out (x ∷ []) (inl q))
              | inr (inr j, t) ↦ inr (j, t)
            ]))
      | inr b ↦
          let full : length (out ++ x ∷ []) < limit = rw (k, b) at h in
          absurd (ground (arith, length-append out (x ∷ []), full, b))
    ]
    | inr k ↦ rw k (
        taken-all rows out (rw k at h) r (elim i [
          | inl j ↦ inl j
          | inr (inl q, t) ↦ absurd (clash (sym t ∙ subst (λ z. keep z ≡ false) q k))
          | inr (inr j, t) ↦ inr (j, t)
        ]))
  ]

  taken-le :
      (rows out : List MessageRow) → length out < limit → length (taken keep limit rows out) ≤ limit
  unfolding taken
  taken-le [] out h = omega (arith, h)
  taken-le (x ∷ rows) out h = elim (Bool-cases (keep x)) [
    | inl k ↦ elim (Bool-cases (ltb (length out + 1) limit)) [
      | inl b ↦
          rw (k, b) (taken-le rows (out ++ x ∷ []) (ground (arith, length-append out (x ∷ []), b)))
      | inr b ↦ rw (k, b) (omega (arith, length-append out (x ∷ []), h))
    ]
    | inr k ↦ rw k (taken-le rows out h)
  ]

  taken-IsKeyed :
      (rows out : List MessageRow)
      → IsKeyed (λ (r : MessageRow). r.message_id) (out ++ rows)
      → IsKeyed (λ (r : MessageRow). r.message_id) (taken keep limit rows out)
  unfolding taken
  taken-IsKeyed [] out d = IsKeyed-append_left (λ (r : MessageRow). r.message_id) out [] d
  taken-IsKeyed (x ∷ rows) out d =
      let key : MessageRow → Text = λ r. r.message_id in
      let moved : IsKeyed key ((out ++ x ∷ []) ++ rows) =
        subst (IsKeyed key) (sym (append_assoc out (x ∷ []) rows)) d in
      elim (Bool-cases (keep x)) [
        | inl k ↦ elim (Bool-cases (ltb (length out + 1) limit)) [
          | inl b ↦ rw (k, b) (taken-IsKeyed rows (out ++ x ∷ []) moved)
          | inr b ↦ rw (k, b) (IsKeyed-append_left key (out ++ x ∷ []) rows moved)
        ]
        | inr k ↦ rw k (taken-IsKeyed rows out (IsKeyed-without key out rows x d))
      ]

is_newer_asym : (a b : MessageRow) → is_newer a b ≡ true → is_newer b a ≡ false
is_newer_asym a b h = ground arith

-- The rows that a scan has to read; none if the directory cannot be listed.
abbrev pub rows_in : Result (List File) → List MessageRow
rows_in (err e) = []
rows_in (ok fs) = rows_of_files fs

-- The directory, a file or a batch fails with this error, or the deadline check before a batch.
abbrev pub Fails : Result (List File) → Error → Type 0
Fails (err f) e = f ≡ e
Fails (ok fs) e = SomeFails fs e

-- What the rows of an answer are: first rows of their message ids that are kept, each message id
-- once, newest first, no more than a positive limit. If they are fewer than the limit, each first row
-- that is kept is among them.
abbrev pub IsAnswer : (MessageRow → Bool) → ℕ → List MessageRow → List MessageRow → Type 0
IsAnswer keep limit rows answer =
    ((r : MessageRow) → IsIn r answer → IsFirst r rows × (keep r ≡ true))
    × IsKeyed (λ (r : MessageRow). r.message_id) answer
    × IsSorted is_newer answer
    × (0 < limit → length answer ≤ limit)
    × (length answer < limit → (r : MessageRow) → IsFirst r rows → keep r ≡ true → IsIn r answer)

taken-IsAnswer :
    (keep : MessageRow → Bool) (limit : ℕ) (rows : List MessageRow)
    → IsAnswer keep limit rows (sort_by is_newer (taken keep limit (firsts [] rows) []))
taken-IsAnswer keep limit rows =
    let shown = firsts [] rows in
    let out = taken keep limit shown [] in
    let same = length-sort_by is_newer out in
    (
      λ r i. elim (taken-IsFrom keep limit shown [] r (IsIn-sort_by is_newer r out i)) [
        | inl z ↦ elim z [ ]
        | inr (j, k) ↦ ((IsFirst-firsts r rows).0 j, k)
      ],
      IsKeyed-sort_by (λ (r : MessageRow). r.message_id) is_newer out
          (taken-IsKeyed keep limit shown [] (firsts-IsKeyed [] rows)),
      IsSorted-sort_by is_newer is_newer_asym out,
      λ h. subst (λ n. n ≤ limit) (sym same) (taken-le keep limit shown [] h),
      λ h r i k. IsIn-sort_by_inv is_newer r out (
          taken-all keep limit shown [] (subst (λ n. n < limit) same h) r
            (inr ((IsFirst-firsts r rows).1 i, k))),
    )

-- a result that is an answer, which reads everything if it is shorter than the limit, or an error of
-- the reading
abbrev pub Answers :
    (MessageRow → Bool) → ℕ → Result (List File) → Result (List MessageRow) → Type 0
Answers keep limit files (ok answer) =
    IsAnswer keep limit (rows_in files) answer
    × (length answer < limit → (e : Error) → ¬ Fails files e)
Answers keep limit files (err e) = Fails files e

module _ (keep : MessageRow → Bool) (limit : ℕ) where
  sorted-Answers :
      (fs : List File) (r : Result Walked)
      → Reads keep limit (SomeFails fs) (rows_of_files fs) [] [] r
      → Answers keep limit (ok fs) (do out ← (do w ← r; ok (pushed w)); ok (sort_by is_newer out))
  sorted-Answers fs (err e) h = h
  sorted-Answers fs (ok w) (h, c) = (
    subst (λ t. IsAnswer keep limit (rows_of_files fs) (sort_by is_newer t))
        (sym (ap (λ z. pushed z) h ∙ pushed-scan_rows keep limit (rows_of_files fs) [] []))
        (taken-IsAnswer keep limit (rows_of_files fs)),
    unread w c h,
  )
    where
      unread :
          (w : Walked)
          → Whole keep limit (SomeFails fs) w
          → w ≡ scan_rows keep limit (rows_of_files fs) [] []
          → length (sort_by is_newer (pushed w)) < limit
          → (e : Error) → ¬ SomeFails fs e
      unread (going seen out) c h short = c
      unread (stopped out) c h short = absurd (
          omega (
            arith,
            short,
            length-sort_by is_newer out,
            stopped-full keep limit (rows_of_files fs) [] [] out (sym h),
          ))

  scan-Answers :
      (files : Result (List File))
      → Answers keep limit files (do out ← scan keep limit files; ok (sort_by is_newer out))
  unfolding scan
  scan-Answers (err e) = refl
  scan-Answers (ok fs) =
      sorted-Answers fs (scan_files keep limit fs [] []) (scan_files-Reads keep limit fs [] [])

-- A query by a field that scans fails only with an error of the directory, of a file, of a batch or
-- of a deadline check; otherwise it answers. Each row of the answer is the first one of its message
-- id among the rows that could be read, in the order of the files, and passes the field's test, the
-- list and the time bounds. The answer has each message id once, is sorted newest first, and has no
-- more rows than a positive limit. If it has fewer than the limit, then nothing failed, and each row
-- that is the first of its message id and passes is in it.
pub eq_scan-Answers :
    (field : EqField) (value : Text) (since until : Option ℕ) (list : Option Text) (limit : ℕ)
    (files : Result (List File))
    → Answers
        (eq_keeps field value since until list)
        limit
        files
        (eq_scan field value since until list limit files)
unfolding eq_scan
eq_scan-Answers field value since until list limit files =
    scan-Answers (eq_keeps field value since until list) limit files

-- The same of the query by several values: a row passes the field's test if it does for one of them.
in_list_scan-Answers :
    (field : EqField) (values : List Text) (since until : Option ℕ) (list : Option Text) (limit : ℕ)
    (files : Result (List File))
    → Answers
        (in_list_keeps field values since until list)
        limit
        files
        (in_list_scan field values since until list limit files)
unfolding in_list_scan
in_list_scan-Answers field values since until list limit files =
    scan-Answers (in_list_keeps field values since until list) limit files
