-- ===== src/Tid/Propagate.antt =====
-- The side table of src/tid.rs: what a cover letter inherits from the patches of its thread.
use kernel_lore_mcp.Base.{
  ◌≡◌, ◌≢◌, refl, ap, ◌∙◌, inl, inr, true, false, List, [], ◌∷◌, length, ◌==◌, arith, Option, none,
  some, Bool-cases, IsIn, IsIn-append, IsIn-append_left, IsIn-append_right, ◌↔◌,
}
use kernel_lore_mcp.Text.{Text, text_eq_iff, text_eq_refl}
use kernel_lore_mcp.Text.Sorted.{to_set, IsIn-to_set}
use kernel_lore_mcp.Tid.Defs.{
  LiteRow, is_text, resolve_tid, tid_of_mid, collect, propagated, tid_row,
}

-- Some row of the thread carries the value.
pub Carries : (LiteRow → List Text) → List LiteRow → List LiteRow → Text → Text → Type 0
Carries field rows part tid f =
    (x : LiteRow) × IsIn x part × (tid_of_mid rows x.message_id ≡ some tid) × IsIn f (field x)

is_text_iff : (o : Option Text) (t : Text) → is_text o t ≡ true → o ≡ some t
is_text_iff none t h = absurd (cc)
is_text_iff (some s) t h = ap some ((text_eq_iff s t).0 h)

collect-Carries :
    (field : LiteRow → List Text) (rows part : List LiteRow) (tid f : Text)
    → IsIn f (collect field rows part tid)
    → Carries field rows part tid f
unfolding collect Carries
collect-Carries field rows [] tid f i = elim i [ ]
collect-Carries field rows (r ∷ rs) tid f i =
    let later : IsIn f (collect field rows rs tid) → Carries field rows (r ∷ rs) tid f =
      λ j. let (x, a, b, c) = collect-Carries field rows rs tid f j in (x, inr a, b, c) in
    elim (Bool-cases (is_text (tid_of_mid rows r.message_id) tid)) [
      | inl e ↦ elim (IsIn-append f (field r) (collect field rows rs tid) (rw e at i)) [
        | inl j ↦ (r, inl refl, is_text_iff (tid_of_mid rows r.message_id) tid e, j)
        | inr j ↦ later j
      ]
      | inr e ↦ later (rw e at i)
    ]

Carries-collect :
    (field : LiteRow → List Text) (rows part : List LiteRow) (tid f : Text) (x : LiteRow)
    → IsIn x part
    → tid_of_mid rows x.message_id ≡ some tid
    → IsIn f (field x)
    → IsIn f (collect field rows part tid)
unfolding collect
Carries-collect field rows [] tid f x i t j = elim i [ ]
Carries-collect field rows (r ∷ rs) tid f x (inl e) t j =
    let t' : tid_of_mid rows r.message_id ≡ some tid = rw e t in
    rw (t', text_eq_refl tid) (IsIn-append_left f (field r) (collect field rows rs tid) (rw e j))
Carries-collect field rows (r ∷ rs) tid f x (inr i) t j =
    let rest = Carries-collect field rows rs tid f x i t j in
    elim (Bool-cases (is_text (tid_of_mid rows r.message_id) tid)) [
      | inl e ↦ rw e (IsIn-append_right f (field r) (collect field rows rs tid) rest)
      | inr e ↦ rw e rest
    ]

carried :
    (rows : List LiteRow) (r : LiteRow) (f : Text)
    → Carries (λ x. x.touched_files) rows rows (resolve_tid rows r) f
    → IsIn f (collect (λ x. x.touched_files) rows rows (resolve_tid rows r))
unfolding Carries
carried rows r f (x, a, t, j) =
    Carries-collect (λ x. x.touched_files) rows rows (resolve_tid rows r) f x a t j

cover :
    (rows : List LiteRow) (r : LiteRow)
    → r.is_cover_letter ≡ true
    → (tid_row rows r).propagated_files
      ≡ propagated (λ x. x.touched_files) rows (resolve_tid rows r)
unfolding tid_row
cover rows r c = simp c

no_cover :
    (rows : List LiteRow) (r : LiteRow)
    → r.is_cover_letter ≡ false
    → (tid_row rows r).propagated_files ≡ []
unfolding tid_row
no_cover rows r c = simp c

-- In the side table a cover letter whose thread id is not empty lists a file exactly if a row of
-- the corpus touches the file and its message is in the thread. A row that is no cover letter
-- lists no file.
pub tid_row-propagated_files :
    (rows : List LiteRow) (r : LiteRow) (f : Text)
    → resolve_tid rows r ≢ []
    → (r.is_cover_letter ≡ false → (tid_row rows r).propagated_files ≡ [])
      × (r.is_cover_letter ≡ true
          → IsIn f ((tid_row rows r).propagated_files)
            ↔ Carries (λ x. x.touched_files) rows rows (resolve_tid rows r) f)
tid_row-propagated_files rows r f n =
    let field : LiteRow → List Text = λ x. x.touched_files in
    let tid = resolve_tid rows r in
    let all = collect field rows rows tid in
    let e : propagated field rows tid ≡ to_set all =
      unfold propagated in
      elim (Bool-cases (length tid == 0)) [
        | inl z ↦ absurd (n (no_length tid z))
        | inr z ↦ rw z refl
      ] in
    let files : r.is_cover_letter ≡ true → (tid_row rows r).propagated_files ≡ to_set all =
      λ c. cover rows r c ∙ e in
    (
      no_cover rows r,
      λ c. (
        λ i. collect-Carries field rows rows tid f ((IsIn-to_set f all).0 (rw (files c) at i)),
        λ k. rw (files c) ((IsIn-to_set f all).1 (carried rows r f k)),
      ),
    )
  where
    no_length : (t : Text) → (length t == 0) ≡ true → t ≡ []
    no_length [] z = refl
    no_length (c ∷ t) z = absurd (ground arith)
