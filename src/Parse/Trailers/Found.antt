-- ===== src/Parse/Trailers/Found.antt =====
-- Which values a message has under a trailer name.
use kernel_lore_mcp.Base.{
  ◌≡◌, refl, sym, ap, ◌∙◌, ◌⊎◌, inl, inr, ◌↔◌, Bool, true, false, List, [], ◌∷◌, ◌++◌,
  if◌then◌else◌, IsIn, IsIn-append, IsIn-append_left, IsIn-append_right, Option, none, some,
  unwrap_or, subst, arith,
}
use mathlib.Core.Option.{some-injective}
use kernel_lore_mcp.Text.{Text, to_ascii_lowercase, trim, split_once, text_eq, text_eq-cases}
use kernel_lore_mcp.Dict.{lookup, lookup-insert}
use kernel_lore_mcp.Parse.Trailers.Defs.{
  Trailers, no_trailers, push_entry, push_named, add_parts, add_lines, trailer_lines,
  extract_trailers,
}

push_named-trailers : (name v : Text) (t : Trailers) → (push_named name v t).trailers ≡ t.trailers
unfolding push_named
push_named-trailers name v t = ground arith

-- the values under a name
abbrev pub values : Text → Trailers → List Text
values k t = unwrap_or [] (lookup k t.trailers)

-- What one line adds: its value, under its name in lower case.
abbrev pub Gives : Option (Text × Text) → Text → Text → Type 0
Gives parts k v =
    (name : Text) × (value : Text) × (parts ≡ some (name, value))
    × (to_ascii_lowercase (trim name) ≡ k)
    × (trim value ≡ v)

values-push_named :
    (k name v : Text) (t : Trailers)
    → values k (push_named name v (record t { trailers = push_entry name v t.trailers }))
      ≡ (if text_eq name k then values name t ++ v ∷ [] else values k t)
values-push_named k name v t =
    ap (λ m. unwrap_or [] (lookup k m))
      (push_named-trailers name v (record t { trailers = push_entry name v t.trailers }))
    ∙ ap (unwrap_or [])
        (lookup-insert name k (unwrap_or [] (lookup name t.trailers) ++ v ∷ []) t.trailers)
    ∙ pushed (text_eq name k)
  where
    pushed :
        (b : Bool)
        → unwrap_or [] (if b then some (values name t ++ v ∷ []) else lookup k t.trailers)
          ≡ (if b then values name t ++ v ∷ [] else values k t)
    pushed true = refl
    pushed false = refl

IsIn-snoc : (v x : Text) (xs : List Text) → IsIn v (xs ++ x ∷ []) ↔ (IsIn v xs ⊎ (x ≡ v))
IsIn-snoc v x xs = (
  λ i. elim (IsIn-append v xs (x ∷ []) i) [
    | inl j ↦ inl j
    | inr (inl q) ↦ inr q
    | inr (inr j) ↦ elim j [ ]
  ],
  λ i. elim i [
    | inl j ↦ IsIn-append_left v xs (x ∷ []) j
    | inr q ↦ IsIn-append_right v xs (x ∷ []) (inl q)
  ],
)

add_parts-values :
    (o : Option (Text × Text)) (t : Trailers) (k v : Text)
    → IsIn v (values k (add_parts o t)) ↔ (IsIn v (values k t) ⊎ Gives o k v)
add_parts-values none t k v =
    (λ i. inl i, λ i. elim i [ inl j ↦ j | inr (_, _, e, _, _) ↦ absurd (cc) ])
add_parts-values (some (name, value)) t k v =
    let n = to_ascii_lowercase (trim name) in
    let e = values-push_named k n (trim value) t in
    elim (text_eq-cases n k) [
      | inl (b, q) ↦
          let (f, g) = IsIn-snoc v (trim value) (values n t) in
          (
            λ i. elim (f (rw (e, b) at i)) [
              | inl j ↦ inl (rw q at j)
              | inr r ↦ inr (name, value, refl, q, r)
            ],
            λ i.
                rw (e, b)
                  (g (elim i [
                    | inl j ↦ inl (rw q j)
                    | inr (name', value', p, _, r) ↦
                        inr
                          (ap (λ z. trim z.1) (some-injective (name, value) (name', value') p) ∙ r)
                  ])),
          )
      | inr (b, ne) ↦ (
        λ i. inl (rw (e, b) at i),
        λ i.
            rw (e, b)
              (elim i [
                | inl j ↦ j
                | inr (name', value', p, q, r) ↦ absurd (
                    ne (
                      ap (λ z. to_ascii_lowercase (trim z.0))
                        (some-injective (name, value) (name', value') p)
                      ∙ q))
              ]),
      )
    ]

add_lines-values :
    (ls : List Text) (t : Trailers) (k v : Text)
    → IsIn v (values k (add_lines ls t))
      ↔ (IsIn v (values k t) ⊎ ((l : Text) × IsIn l ls × Gives (split_once 58 l) k v))
unfolding add_lines
add_lines-values [] t k v = (λ i. inl i, λ i. elim i [ inl j ↦ j | inr (_, j, _) ↦ elim j [ ] ])
add_lines-values (x ∷ ls) t k v =
    let (f, g) = add_lines-values ls (add_parts (split_once 58 x) t) k v in
    let (h, w) = add_parts-values (split_once 58 x) t k v in
    (
      λ i. elim (f i) [
        | inl j ↦ elim (h j) [ inl a ↦ inl a | inr a ↦ inr (x, inl refl, a) ]
        | inr (l, j, a) ↦ inr (l, inr j, a)
      ],
      λ i. g (elim i [
        | inl j ↦ inl (w (inl j))
        | inr (l, inl q, a) ↦ inl (w (inr (subst (λ z. Gives (split_once 58 z) k v) (sym q) a)))
        | inr (l, inr j, a) ↦ inr (l, j, a)
      ]),
    )

none_yet : (k v : Text) → IsIn v (values k no_trailers) → ⊥
unfolding lookup
none_yet k v j = j

-- The values under a name are those of the trailer lines with that name, in whichever case it is
-- written.
pub extract_trailers-values :
    (prose k v : Text)
    → IsIn v (values k (extract_trailers prose))
      ↔ ((l : Text) × IsIn l (trailer_lines prose) × Gives (split_once 58 l) k v)
unfolding extract_trailers
extract_trailers-values prose k v =
    let (f, g) = add_lines-values (trailer_lines prose) no_trailers k v in
    (λ i. elim (f i) [ inl j ↦ absurd (none_yet k v j) | inr a ↦ a ], λ a. g (inr a))
