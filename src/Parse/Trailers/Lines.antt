-- ===== src/Parse/Trailers/Lines.antt =====
-- The lines that count as trailers, wherever they stand in the prose.
use kernel_lore_mcp.Base.{
  ◌≡◌, refl, sym, ◌⊎◌, inl, inr, ◌↔◌, true, List, [], ◌∷◌, ◌++◌, length, ◌==◌, retain, IsIn,
  IsIn-append, IsIn-retain, IsIn-retain_inv, Bool-cases, subst,
}
use mathlib.Core.List.{reverse, reverse-cons}
use kernel_lore_mcp.Text.{Text, trim_end, lines}
use kernel_lore_mcp.Text.Distinct.{push_new, IsIn-push_new}
use kernel_lore_mcp.Parse.Trailers.Defs.{is_trailer_line, trailing, push_all, trailer_lines}

IsIn-reverse : (l : Text) (ls : List Text) → IsIn l (reverse ls) → IsIn l ls
IsIn-reverse l [] i = i
IsIn-reverse l (x ∷ ls) i =
    elim (IsIn-append l (reverse ls) (x ∷ []) (subst (λ z. IsIn l z) (reverse-cons x ls) i)) [
      | inl j ↦ inr (IsIn-reverse l ls j)
      | inr (inl q) ↦ inl q
      | inr (inr z) ↦ elim z [ ]
    ]

IsIn-push_all :
    (l : Text) (ls out : List Text) → IsIn l (push_all ls out) ↔ (IsIn l ls ⊎ IsIn l out)
unfolding push_all
IsIn-push_all l [] out = (λ i. inr i, λ i. elim i [ inl j ↦ elim j [ ] | inr j ↦ j ])
IsIn-push_all l (x ∷ ls) out =
    let (f, g) = IsIn-push_all l ls (push_new x out) in
    let (h, w) = IsIn-push_new l x out in
    (
      λ i. elim (f i) [
        | inl j ↦ inl (inr j)
        | inr j ↦ elim (h j) [ inl a ↦ inr a | inr q ↦ inl (inl q) ]
      ],
      λ i. g (elim i [
        | inl (inl q) ↦ inr (w (inr q))
        | inl (inr j) ↦ inl j
        | inr j ↦ inr (w (inl j))
      ]),
    )

-- a trailer line of the prose, without the whitespace at its end
abbrev IsTrimmed : List Text → Text → Type 0
IsTrimmed raws l = (raw : Text) × IsIn raw raws × (trim_end raw ≡ l) × (is_trailer_line l ≡ true)

IsTrimmed-later :
    (x : Text) (raws : List Text) (l : Text) → IsTrimmed raws l → IsTrimmed (x ∷ raws) l
IsTrimmed-later x raws l (raw, i, e, t) = (raw, inr i, e, t)

trailing-IsTrimmed :
    (raws acc : List Text) (l : Text) → IsIn l (trailing raws acc) → IsIn l acc ⊎ IsTrimmed raws l
unfolding trailing
trailing-IsTrimmed [] acc l i = inl i
trailing-IsTrimmed (x ∷ raws) acc l i = elim (Bool-cases (length (trim_end x) == 0)) [
  | inl e ↦ elim (Bool-cases (length acc == 0)) [
    | inl f ↦ elim (trailing-IsTrimmed raws acc l (rw (e, f) at i)) [
      | inl j ↦ inl j
      | inr t ↦ inr (IsTrimmed-later x raws l t)
    ]
    | inr f ↦ inl (rw (e, f) at i)
  ]
  | inr e ↦ elim (Bool-cases (is_trailer_line (trim_end x))) [
    | inl f ↦ elim (trailing-IsTrimmed raws (acc ++ trim_end x ∷ []) l (rw (e, f) at i)) [
      | inl j ↦ elim (IsIn-append l acc (trim_end x ∷ []) j) [
        | inl a ↦ inl a
        | inr (inl q) ↦ inr (x, inl refl, q, subst (λ z. is_trailer_line z ≡ true) q f)
        | inr (inr z) ↦ elim z [ ]
      ]
      | inr t ↦ inr (IsTrimmed-later x raws l t)
    ]
    | inr f ↦ inl (rw (e, f) at i)
  ]
]

-- Each line of the prose that is a trailer is one of the trailer lines. Each trailer line is such a
-- line, with or without the whitespace at its end.
pub trailer_lines-all :
    (prose : Text)
    → ((l : Text)
        → IsIn l (lines prose)
        → is_trailer_line (trim_end l) ≡ true
        → IsIn l (trailer_lines prose))
      × ((l : Text)
          → IsIn l (trailer_lines prose)
          → (raw : Text) × IsIn raw (lines prose)
            × ((raw ≡ l) ⊎ (trim_end raw ≡ l))
            × (is_trailer_line (trim_end raw) ≡ true))
unfolding trailer_lines
trailer_lines-all prose =
    let kept = retain (λ l. is_trailer_line (trim_end l)) (lines prose) in
    let end = reverse (trailing (reverse (lines prose)) []) in
    (
      λ l i t.
          (IsIn-push_all l kept end).1
            (inl (IsIn-retain (λ x. is_trailer_line (trim_end x)) l (lines prose) i t)),
      λ l i. elim ((IsIn-push_all l kept end).0 i) [
        | inl j ↦
            let (a, b) = IsIn-retain_inv (λ x. is_trailer_line (trim_end x)) l (lines prose) j in
            (l, a, inl refl, b)
        | inr j ↦
            elim (trailing-IsTrimmed (reverse (lines prose)) [] l
              (IsIn-reverse l (trailing (reverse (lines prose)) []) j)) [
                | inl z ↦ elim z [ ]
                | inr (raw, a, q, t) ↦ (
                  raw,
                  IsIn-reverse raw (lines prose) a,
                  inr q,
                  subst (λ z. is_trailer_line z ≡ true) (sym q) t,
                )
              ]
      ],
    )
