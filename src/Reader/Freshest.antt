-- ===== src/Reader/Freshest.antt =====
-- `Reader::scan` against the rows that the files hold: the first row of each message id, in order, of
-- which the visitor takes those that it is to keep until it has enough.
use kernel_lore_mcp.Base.{
  ℕ, ◌+◌, ◌≡◌, ◌≢◌, refl, sym, ap, ◌∙◌, ◌⊎◌, inl, inr, ◌↔◌, Bool, true, false, List, [], ◌∷◌, ◌++◌,
  ltb, ◌≤◌, arith, length, length-append, if◌then◌else◌, IsIn, Bool-cases, subst, IsIn-map_inv,
}
use kernel_lore_mcp.Error.{Error, Result, Done, ok, err, ok-injective, ◌>>=◌, ◌>>◌}
use kernel_lore_mcp.Text.{Text}
use kernel_lore_mcp.Text.Distinct.{listed, listed_iff}
use kernel_lore_mcp.Text.Keyed.{IsKeyed}
use kernel_lore_mcp.Reader.Rows.{MessageRow}
use kernel_lore_mcp.Reader.Scan.{
  Batch, File, Walked, going, stopped, pushed, scan_row, go_on, scan_rows, go_on_reading,
  scan_batch, scan_batches, scan_file, scan_files,
}

abbrev rows_of_result : Result (List MessageRow) → List MessageRow
rows_of_result (err e) = []
rows_of_result (ok rows) = rows

abbrev pub rows_of_batches : List Batch → List MessageRow
rows_of_batches [] = []
rows_of_batches (b ∷ bs) = rows_of_result b.rows ++ rows_of_batches bs

abbrev rows_of_file : File → List MessageRow
rows_of_file (err e) = []
rows_of_file (ok bs) = rows_of_batches bs

-- the rows of all files that can be read, in the order of the files
abbrev pub rows_of_files : List File → List MessageRow
rows_of_files [] = []
rows_of_files (f ∷ fs) = rows_of_file f ++ rows_of_files fs

-- the deadline check or the reading of a batch fails with this error
abbrev pub BatchFails : List Batch → Error → Type 0
BatchFails bs e = (b : Batch) × IsIn b bs × ((b.deadline ≡ err e) ⊎ (b.rows ≡ err e))

abbrev pub FileFails : File → Error → Type 0
FileFails f e = (f ≡ err e) ⊎ ((bs : List Batch) × (f ≡ ok bs) × BatchFails bs e)

abbrev pub SomeFails : List File → Error → Type 0
SomeFails fs e = (f : File) × IsIn f fs × FileFails f e

-- The row is there, and no row before it has its message id.
abbrev pub IsFirst : MessageRow → List MessageRow → Type 0
IsFirst r rows =
    (before : List MessageRow) × (after : List MessageRow) × (rows ≡ before ++ r ∷ after)
    × ((x : MessageRow) → IsIn x before → x.message_id ≢ r.message_id)

-- the first rows of the message ids that are not among those seen
unfoldable pub firsts : List Text → List MessageRow → List MessageRow
firsts seen [] = []
firsts seen (r ∷ rows) =
    let later = firsts seen rows in
    let rest = firsts (r.message_id ∷ seen) rows in
    if listed r.message_id seen then later else r ∷ rest

clash : {b : Bool} → b ≡ true → b ≡ false → ⊥
clash t f = cc

firsts-IsFirst :
    (seen : List Text) (rows : List MessageRow) (r : MessageRow)
    → IsIn r (firsts seen rows)
    → IsFirst r rows × (¬ IsIn r.message_id seen)
unfolding firsts
firsts-IsFirst seen [] r i = elim i [ ]
firsts-IsFirst seen (x ∷ rows) r i = elim (Bool-cases (listed x.message_id seen)) [
  | inl e ↦
      let ((before, after, q, n), m) = firsts-IsFirst seen rows r (rw e at i) in
      (
        (
          x ∷ before,
          after,
          ap (λ t. x ∷ t) q,
          λ y j. elim j [
            | inl s ↦ λ k. m (
                subst (λ t. IsIn t seen) (ap (λ (z : MessageRow). z.message_id) s ∙ k)
                  ((listed_iff x.message_id seen).0 e))
            | inr j' ↦ n y j'
          ],
        ),
        m,
      )
  | inr e ↦
      let i' : (x ≡ r) ⊎ IsIn r (firsts (x.message_id ∷ seen) rows) = rw e at i in
      elim i' [
        | inl q ↦ (
          ([], rows, ap (λ t. t ∷ rows) q, λ y j. elim j [ ]),
          λ k.
              clash
                ((listed_iff x.message_id seen).1
                  (subst (λ (z : MessageRow). IsIn z.message_id seen) (sym q) k))
                e,
        )
        | inr j ↦
            let ((before, after, q, n), m) = firsts-IsFirst (x.message_id ∷ seen) rows r j in
            (
              (
                x ∷ before,
                after,
                ap (λ t. x ∷ t) q,
                λ y k. elim k [
                  | inl s ↦ λ t. m (inl (ap (λ (z : MessageRow). z.message_id) s ∙ t))
                  | inr k' ↦ n y k'
                ],
              ),
              λ k. m (inr k),
            )
      ]
]

firsts-all :
    (seen : List Text) (before after : List MessageRow) (r : MessageRow)
    → ((x : MessageRow) → IsIn x before → x.message_id ≢ r.message_id)
    → (¬ IsIn r.message_id seen)
    → IsIn r (firsts seen (before ++ r ∷ after))
unfolding firsts
firsts-all seen [] after r n m = elim (Bool-cases (listed r.message_id seen)) [
  | inl e ↦ absurd (m ((listed_iff r.message_id seen).0 e))
  | inr e ↦ rw e (inl refl)
]
firsts-all seen (x ∷ before) after r n m = elim (Bool-cases (listed x.message_id seen)) [
  | inl e ↦ rw e (firsts-all seen before after r (λ y j. n y (inr j)) m)
  | inr e ↦ rw e (
      inr (
        firsts-all (x.message_id ∷ seen) before after r (λ y j. n y (inr j))
          (λ k. elim k [ inl q ↦ n x (inl refl) q | inr j ↦ m j ])))
]

pub IsFirst-firsts :
    (r : MessageRow) (rows : List MessageRow) → IsIn r (firsts [] rows) ↔ IsFirst r rows
IsFirst-firsts r rows = (
  λ i. (firsts-IsFirst [] rows r i).0,
  λ (before, after, q, n).
      subst (λ t. IsIn r (firsts [] t)) (sym q) (firsts-all [] before after r n (λ k. elim k [ ])),
)

pub firsts-IsKeyed :
    (seen : List Text) (rows : List MessageRow)
    → IsKeyed (λ (r : MessageRow). r.message_id) (firsts seen rows)
unfolding firsts
firsts-IsKeyed seen [] = tt
firsts-IsKeyed seen (x ∷ rows) = elim (Bool-cases (listed x.message_id seen)) [
  | inl e ↦ rw e (firsts-IsKeyed seen rows)
  | inr e ↦ rw e (
    λ i.
        let rest = firsts (x.message_id ∷ seen) rows in
        let (a, j, q) = IsIn-map_inv (λ (r : MessageRow). r.message_id) x.message_id rest i in
        (firsts-IsFirst (x.message_id ∷ seen) rows a j).1 (inl (sym q)),
    firsts-IsKeyed (x.message_id ∷ seen) rows,
  )
]

module _ (keep : MessageRow → Bool) (limit : ℕ) where
  -- what the visitor takes of the rows that it is shown
  unfoldable pub taken : List MessageRow → List MessageRow → List MessageRow
  taken [] out = out
  taken (r ∷ rows) out =
      let skipped = taken rows out in
      let more = taken rows (out ++ r ∷ []) in
      if keep r then (if ltb (length out + 1) limit then more else out ++ r ∷ []) else skipped

  pub pushed-scan_rows :
      (rows : List MessageRow) (seen : List Text) (out : List MessageRow)
      → pushed (scan_rows keep limit rows seen out) ≡ taken (firsts seen rows) out
  unfolding scan_rows taken firsts
  pushed-scan_rows [] seen out = refl
  pushed-scan_rows (r ∷ rows) seen out = elim (Bool-cases (listed r.message_id seen)) [
    | inl e ↦ rw e (pushed-scan_rows rows seen out)
    | inr e ↦ elim (Bool-cases (keep r)) [
      | inl k ↦ elim (Bool-cases (ltb (length out + 1) limit)) [
        | inl b ↦ rw (e, k, b) (pushed-scan_rows rows (r.message_id ∷ seen) (out ++ r ∷ []))
        | inr b ↦ rw (e, k, b) refl
      ]
      | inr k ↦ rw (e, k) (pushed-scan_rows rows (r.message_id ∷ seen) out)
    ]
  ]

  go_on-go_on :
      (w : Walked) (f g : List Text → List MessageRow → Walked)
      → go_on keep limit (go_on keep limit w f) g
        ≡ go_on keep limit w (λ s o. go_on keep limit (f s o) g)
  go_on-go_on (going seen out) f g = refl
  go_on-go_on (stopped out) f g = refl

  go_on_same :
      (w : Walked) (f g : List Text → List MessageRow → Walked)
      → ((s : List Text) (o : List MessageRow) → f s o ≡ g s o)
      → go_on keep limit w f ≡ go_on keep limit w g
  go_on_same (going seen out) f g h = h seen out
  go_on_same (stopped out) f g h = refl

  scan_rows-append :
      (xs ys : List MessageRow) (seen : List Text) (out : List MessageRow)
      → scan_rows keep limit (xs ++ ys) seen out
        ≡ go_on keep limit (scan_rows keep limit xs seen out) (λ s o. scan_rows keep limit ys s o)
  unfolding scan_rows
  scan_rows-append [] ys seen out = refl
  scan_rows-append (x ∷ xs) ys seen out =
      let first = scan_row keep limit x seen out in
      let again : List Text → List MessageRow → Walked = λ s o. scan_rows keep limit ys s o in
      go_on_same first _ (λ s o. go_on keep limit (scan_rows keep limit xs s o) again)
        (λ s o. scan_rows-append xs ys s o)
      ∙ sym (go_on-go_on first (λ s o. scan_rows keep limit xs s o) again)

  -- a visitor that has stopped the scan has as many rows as it wants
  pub stopped-full :
      (rows : List MessageRow) (seen : List Text) (out o : List MessageRow)
      → scan_rows keep limit rows seen out ≡ stopped o
      → limit ≤ length o
  unfolding scan_rows
  stopped-full [] seen out o h = absurd (cc)
  stopped-full (r ∷ rows) seen out o h = elim (Bool-cases (listed r.message_id seen)) [
    | inl e ↦ stopped-full rows seen out o (rw e at h)
    | inr e ↦ elim (Bool-cases (keep r)) [
      | inl k ↦ elim (Bool-cases (ltb (length out + 1) limit)) [
        | inl b ↦ stopped-full rows (r.message_id ∷ seen) (out ++ r ∷ []) o (rw (e, k, b) at h)
        | inr b ↦
            let q : stopped (out ++ r ∷ []) ≡ stopped o = rw (e, k, b) at h in
            subst (λ z. limit ≤ length z) (ap pushed q)
              (ground (arith, length-append out (r ∷ []), b))
      ]
      | inr k ↦ stopped-full rows (r.message_id ∷ seen) out o (rw (e, k) at h)
    ]
  ]

  -- where the visitor has not stopped the scan, nothing that was read has failed
  abbrev pub Whole : (Error → Type 0) → Walked → Type 0
  Whole Fails (going seen out) = (e : Error) → ¬ Fails e
  Whole Fails (stopped out) = Unit

  -- Reading ends as the loop over these rows does, or with an error of such a kind.
  abbrev pub Reads :
      (Error → Type 0) → List MessageRow → List Text → List MessageRow → Result Walked → Type 0
  Reads Fails rows seen out (ok w) = (w ≡ scan_rows keep limit rows seen out) × Whole Fails w
  Reads Fails rows seen out (err e) = Fails e

  module _ (F G H : Error → Type 0) (f : (e : Error) → F e → H e) (g : (e : Error) → G e → H e)
      (back : (e : Error) → H e → F e ⊎ G e) (xs ys : List MessageRow) (seen : List Text)
      (out : List MessageRow) where
    go_on_reading-Reads :
        (first : Result Walked) (next : List Text → List MessageRow → Result Walked)
        → Reads F xs seen out first
        → ((s : List Text) (o : List MessageRow) → Reads G ys s o (next s o))
        → Reads H (xs ++ ys) seen out (go_on_reading keep limit first next)
    go_on_reading-Reads (err e) next h k = f e h
    go_on_reading-Reads (ok (stopped o)) next (h, _) k =
        (sym (scan_rows-append xs ys seen out ∙ rw (← h) refl), tt)
    go_on_reading-Reads (ok (going s o)) next (h, c) k = after (next s o) (k s o)
      where
        whole : (w : Walked) → Whole G w → Whole H w
        whole (going s o) d = λ e i. elim (back e i) [ inl x ↦ c e x | inr x ↦ d e x ]
        whole (stopped o) d = tt

        after : (r : Result Walked) → Reads G ys s o r → Reads H (xs ++ ys) seen out r
        after (err e) q = g e q
        after (ok w) (q, d) = (q ∙ sym (scan_rows-append xs ys seen out ∙ rw (← h) refl), whole w d)

  scan_batch-Reads :
      (b : Batch) (seen : List Text) (out : List MessageRow)
      → Reads
          (λ e. (b.deadline ≡ err e) ⊎ (b.rows ≡ err e))
          (rows_of_result b.rows)
          seen
          out
          (scan_batch keep limit b seen out)
  scan_batch-Reads b seen out = go b.deadline b.rows refl refl
    where
      go :
          (d : Done) (r : Result (List MessageRow))
          → b.deadline ≡ d
          → b.rows ≡ r
          → Reads
              (λ e. (b.deadline ≡ err e) ⊎ (b.rows ≡ err e))
              (rows_of_result r)
              seen
              out
              (d >> (do rows ← r; ok (scan_rows keep limit rows seen out)))
      go (err e) r p q = inl p
      go (ok _) (err e) p q = inr q
      go (ok _) (ok rows) p q = (refl, unfailed (scan_rows keep limit rows seen out))
        where
          apart : (e : Error) → ¬ ((b.deadline ≡ err e) ⊎ (b.rows ≡ err e))
          apart e (inl x) = never (sym p ∙ x)
            where
              never : {B : Type 0} {y : B} → ◌≡◌ {A = Result B} (ok y) (err e) → ⊥
              never z = cc
          apart e (inr x) = never (sym q ∙ x)
            where
              never : {B : Type 0} {y : B} → ◌≡◌ {A = Result B} (ok y) (err e) → ⊥
              never z = cc

          unfailed : (w : Walked) → Whole (λ e. (b.deadline ≡ err e) ⊎ (b.rows ≡ err e)) w
          unfailed (going s o) = apart
          unfailed (stopped o) = tt

  scan_batches-Reads :
      (bs : List Batch) (seen : List Text) (out : List MessageRow)
      → Reads (BatchFails bs) (rows_of_batches bs) seen out (scan_batches keep limit bs seen out)
  unfolding scan_batches
  scan_batches-Reads [] seen out = (unfold scan_rows in refl, λ e (b, i, _). elim i [ ])
  scan_batches-Reads (b ∷ bs) seen out =
      go_on_reading-Reads (λ e. (b.deadline ≡ err e) ⊎ (b.rows ≡ err e)) (BatchFails bs)
        (BatchFails (b ∷ bs)) (λ e h. (b, inl refl, h)) (λ e (x, i, h). (x, inr i, h))
        (λ e (x, i, h). elim i [
          | inl q ↦ inl (subst (λ (z : Batch). (z.deadline ≡ err e) ⊎ (z.rows ≡ err e)) (sym q) h)
          | inr j ↦ inr (x, j, h)
        ])
        (rows_of_result b.rows) (rows_of_batches bs) seen out (scan_batch keep limit b seen out)
        (λ s o. scan_batches keep limit bs s o) (scan_batch-Reads b seen out)
        (λ s o. scan_batches-Reads bs s o)

  scan_file-Reads :
      (f : File) (seen : List Text) (out : List MessageRow)
      → Reads (FileFails f) (rows_of_file f) seen out (scan_file keep limit f seen out)
  scan_file-Reads (err e) seen out = inl refl
  scan_file-Reads (ok bs) seen out =
      go (scan_batches keep limit bs seen out) (scan_batches-Reads bs seen out)
    where
      go :
          (r : Result Walked)
          → Reads (BatchFails bs) (rows_of_batches bs) seen out r
          → Reads (FileFails (ok bs)) (rows_of_batches bs) seen out r
      go (err e) h = inr (bs, refl, h)
      go (ok w) (h, c) = (h, whole w c)
        where
          never : (e : Error) → ◌≡◌ {A = File} (ok bs) (err e) → ⊥
          never e z = cc

          whole : (w : Walked) → Whole (BatchFails bs) w → Whole (FileFails (ok bs)) w
          whole (going s o) d = λ e i. elim i [
            | inl x ↦ never e x
            | inr (cs, q, x) ↦ d e (subst (λ z. BatchFails z e) (sym (ok-injective bs cs q)) x)
          ]
          whole (stopped o) d = tt

  pub scan_files-Reads :
      (fs : List File) (seen : List Text) (out : List MessageRow)
      → Reads (SomeFails fs) (rows_of_files fs) seen out (scan_files keep limit fs seen out)
  unfolding scan_files
  scan_files-Reads [] seen out = (unfold scan_rows in refl, λ e (f, i, _). elim i [ ])
  scan_files-Reads (f ∷ fs) seen out =
      go_on_reading-Reads (FileFails f) (SomeFails fs) (SomeFails (f ∷ fs))
        (λ e h. (f, inl refl, h)) (λ e (x, i, h). (x, inr i, h))
        (λ e (x, i, h). elim i [
          | inl q ↦ inl (subst (λ z. FileFails z e) (sym q) h)
          | inr j ↦ inr (x, j, h)
        ])
        (rows_of_file f) (rows_of_files fs) seen out (scan_file keep limit f seen out)
        (λ s o. scan_files keep limit fs s o) (scan_file-Reads f seen out)
        (λ s o. scan_files-Reads fs s o)
