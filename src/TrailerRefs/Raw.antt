-- ===== src/TrailerRefs/Raw.antt =====
-- The whole value of a trailer is one of its keys.
use kernel_lore_mcp.Base.{
  ◌≡◌, ◌≢◌, refl, sym, ◌∙◌, ◌⊎◌, inl, inr, true, &&-true, List, [], ◌∷◌, IsIn, Bool-cases, length,
  ◌==◌, arith,
}
use kernel_lore_mcp.Text.{Text, trim, text_eq, text_eq_iff}
use kernel_lore_mcp.TrailerRefs.Defs.{
  TrailerRef, ref_kind_raw_lc, normalize_trailer_ref_value, same_ref, ref_lt, ref_insert,
  insert_refs, extract_trailer_refs,
}

same_ref-eq : (a b : TrailerRef) → same_ref a b ≡ true → a ≡ b
same_ref-eq a b h =
    let (x, y) = &&-true (text_eq a.ref_kind b.ref_kind) (text_eq a.ref_value b.ref_value) h in
    let p : a.ref_kind ≡ b.ref_kind = (text_eq_iff a.ref_kind b.ref_kind).0 x in
    let q : a.ref_value ≡ b.ref_value = (text_eq_iff a.ref_value b.ref_value).0 y in
    of_parts a.ref_kind b.ref_kind a.ref_value b.ref_value p q
  where
    of_parts :
        (k l v w : Text)
        → k ≡ l
        → v ≡ w
        → ◌≡◌ {A = TrailerRef}
            (record { ref_kind = k; ref_value = v })
            (record { ref_kind = l; ref_value = w })
    of_parts k l v w p q = rw (p, q) refl

IsIn-ref_insert :
    (a r : TrailerRef) (xs : List TrailerRef) → (r ≡ a) ⊎ IsIn a xs → IsIn a (ref_insert r xs)
unfolding ref_insert
IsIn-ref_insert a r [] i = i
IsIn-ref_insert a r (x ∷ xs) i = elim (Bool-cases (same_ref r x)) [
  | inl e ↦ rw e (elim i [ inl q ↦ inl (sym (same_ref-eq r x e) ∙ q) | inr j ↦ j ])
  | inr e ↦ elim (Bool-cases (ref_lt r x)) [
    | inl f ↦ rw (e, f) i
    | inr f ↦
        rw (e, f)
          (elim i [
            | inl q ↦ inr (IsIn-ref_insert a r xs (inl q))
            | inr (inl q) ↦ inl q
            | inr (inr j) ↦ inr (IsIn-ref_insert a r xs (inr j))
          ])
  ]
]

IsIn-insert_refs :
    (a : TrailerRef) (rs out : List TrailerRef)
    → IsIn a rs ⊎ IsIn a out
    → IsIn a (insert_refs rs out)
unfolding insert_refs
IsIn-insert_refs a [] out (inl i) = elim i [ ]
IsIn-insert_refs a [] out (inr j) = j
IsIn-insert_refs a (r ∷ rs) out (inl (inl q)) =
    IsIn-insert_refs a rs (ref_insert r out) (inr (IsIn-ref_insert a r out (inl q)))
IsIn-insert_refs a (r ∷ rs) out (inl (inr j)) = IsIn-insert_refs a rs (ref_insert r out) (inl j)
IsIn-insert_refs a (r ∷ rs) out (inr j) =
    IsIn-insert_refs a rs (ref_insert r out) (inr (IsIn-ref_insert a r out (inr j)))

-- A trailer whose value is not blank is stored under the key to which a lookup of the whole value
-- is normalized.
pub extract_trailer_refs-finds_raw :
    (kind raw : Text)
    → trim raw ≢ []
    → IsIn
        (record {
          ref_kind = ref_kind_raw_lc;
          ref_value = normalize_trailer_ref_value ref_kind_raw_lc raw;
        })
        (extract_trailer_refs kind raw)
unfolding extract_trailer_refs normalize_trailer_ref_value text_eq
extract_trailer_refs-finds_raw kind raw n = elim (Bool-cases (length (trim raw) == 0)) [
  | inl e ↦ absurd (n (no_length (trim raw) e))
  | inr e ↦ rw e (IsIn-insert_refs _ _ [] (inl (inl refl)))
]
  where
    no_length : (t : Text) → (length t == 0) ≡ true → t ≡ []
    no_length [] z = refl
    no_length (c ∷ t) z = absurd (ground arith)
