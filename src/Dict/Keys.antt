-- ===== src/Dict/Keys.antt =====
-- A map has each key once.
use kernel_lore_mcp.Base.{
  ◌≡◌, sym, ap, ◌⊎◌, inl, inr, ◌↔◌, List, [], ◌∷◌, map, IsIn, some, Bool-cases, subst,
}
use kernel_lore_mcp.Text.{Text, text_eq, text_eq-cases}
use kernel_lore_mcp.Text.Distinct.{IsDistinct}
use kernel_lore_mcp.Dict.{Dict, lookup, insert}

module _ {V : Type 0} where
  abbrev pub keys : Dict V → List Text
  keys m = map (λ e. e.0) m

  IsIn-keys-insert :
      (j k : Text) (v : V) (m : Dict V) → IsIn j (keys (insert k v m)) → (k ≡ j) ⊎ IsIn j (keys m)
  unfolding insert
  IsIn-keys-insert j k v [] i = i
  IsIn-keys-insert j k v ((l, w) ∷ m) i = elim (Bool-cases (text_eq l k)) [
    | inl e ↦
        let i' : (k ≡ j) ⊎ IsIn j (keys m) = rw e at i in
        elim i' [ inl q ↦ inl q | inr h ↦ inr (inr h) ]
    | inr e ↦
        let i' : (l ≡ j) ⊎ IsIn j (keys (insert k v m)) = rw e at i in
        elim i' [
          | inl q ↦ inr (inl q)
          | inr h ↦ elim (IsIn-keys-insert j k v m h) [ inl q ↦ inl q | inr g ↦ inr (inr g) ]
        ]
  ]

  pub insert-IsDistinct :
      (k : Text) (v : V) (m : Dict V) → IsDistinct (keys m) → IsDistinct (keys (insert k v m))
  unfolding insert
  insert-IsDistinct k v [] d = (λ i. elim i [ ], tt)
  insert-IsDistinct k v ((l, w) ∷ m) d = elim (text_eq-cases l k) [
    | inl (e, q) ↦ rw e (λ i. d.0 (subst (λ z. IsIn z (keys m)) (sym q) i), d.1)
    | inr (e, n) ↦ rw e (
      λ i. elim (IsIn-keys-insert l k v m i) [ inl q ↦ n (sym q) | inr j ↦ d.0 j ],
      insert-IsDistinct k v m d.1,
    )
  ]

  IsIn-keys : (k : Text) (v : V) (m : Dict V) → IsIn (k, v) m → IsIn k (keys m)
  IsIn-keys k v [] i = i
  IsIn-keys k v (e ∷ m) (inl q) = inl (ap (λ z. z.0) q)
  IsIn-keys k v (e ∷ m) (inr j) = inr (IsIn-keys k v m j)

  pub IsIn-lookup :
      (k : Text) (v : V) (m : Dict V) → IsDistinct (keys m) → IsIn (k, v) m → lookup k m ≡ some v
  unfolding lookup
  IsIn-lookup k v [] d i = elim i [ ]
  IsIn-lookup k v ((l, w) ∷ m) d i = elim (text_eq-cases l k) [
    | inl (e, q) ↦ elim i [
      | inl s ↦ rw e (ap (λ z. some z.1) s)
      | inr j ↦ absurd (d.0 (subst (λ z. IsIn z (keys m)) (sym q) (IsIn-keys k v m j)))
    ]
    | inr (e, n) ↦ elim i [
      | inl s ↦ absurd (n (ap (λ z. z.0) s))
      | inr j ↦ rw e (IsIn-lookup k v m d.1 j)
    ]
  ]

  pub IsIn-insert_new :
      (k : Text) (v : V) (m : Dict V)
      → ¬ IsIn k (keys m)
      → (e : Text × V) → IsIn e (insert k v m) ↔ (((k, v) ≡ e) ⊎ IsIn e m)
  unfolding insert
  IsIn-insert_new k v [] n e = (λ i. i, λ i. i)
  IsIn-insert_new k v ((l, w) ∷ m) n e =
      let (f, g) = IsIn-insert_new k v m (λ i. n (inr i)) e in
      elim (text_eq-cases l k) [
        | inl (b, q) ↦ absurd (n (inl q))
        | inr (b, _) ↦ rw b (
          λ i. elim i [
            | inl q ↦ inr (inl q)
            | inr j ↦ elim (f j) [ inl q ↦ inl q | inr h ↦ inr (inr h) ]
          ],
          λ i. elim i [
            | inl q ↦ inr (g (inl q))
            | inr (inl q) ↦ inl q
            | inr (inr j) ↦ inr (g (inr j))
          ],
        )
      ]
