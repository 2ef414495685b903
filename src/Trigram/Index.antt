-- ===== src/Trigram/Index.antt =====
-- What the postings of a segment hold, and that trigrams of a part are trigrams of the whole.
use kernel_lore_mcp.Base.{
  ℕ, zero, suc, ◌≡◌, refl, sym, ap, ◌∙◌, ◌⊎◌, inl, inr, ◌↔◌, Bool, true, false, List, [], ◌∷◌, ◌++◌,
  if◌then◌else◌, ltb, any, length, map, get_elem?, IsIn, ◌&&◌, ◌==◌, ==_iff, ◌^◌, Option, some,
  unwrap_or, Bool-cases, append-nil, append_assoc, subst,
}
use mathlib.Core.Option.{some-injective}
use kernel_lore_mcp.Error.{Result, ok, err, state, ◌>>=◌, >>=-eq-ok}
use kernel_lore_mcp.Text.{Text}
use kernel_lore_mcp.Trigram.Numbers.{Bitmap, bitmap_insert, IsIn-bitmap_insert}
use kernel_lore_mcp.Trigram.Defs.{
  Byte, Segment, pack_trigram, patch_trigrams, empty_segment, insert_all, add,
}

-- A document as it is added: its message id and its patch.
abbrev pub Document : Type 0
Document = Text × List Byte

abbrev pub posting : Segment → ℕ → Bitmap
posting s t = unwrap_or [] (s.postings t)

abbrev pub HasTrigram : List Document → ℕ → ℕ → Type 0
HasTrigram ds t d = (e : Document) × (get_elem? ds d ≡ some e) × IsIn t (patch_trigrams e.1)

pub record IsIndex (ds : List Document) (s : Segment) : Type 0 where
  pub ids : s.docs ≡ map (λ e. e.0) ds
  pub finds : (t d : ℕ) → IsIn d (posting s t) ↔ HasTrigram ds t d

trigrams-cons :
    (t a : ℕ) (s : List Byte) → IsIn t (patch_trigrams s) → IsIn t (patch_trigrams (a ∷ s))
unfolding patch_trigrams
trigrams-cons t a [] i = elim i [ ]
trigrams-cons t a (b ∷ []) i = elim i [ ]
trigrams-cons t a (b ∷ c ∷ r) i = elim (Bool-cases (ltb a 128 && ltb b 128 && ltb c 128)) [
  | inl e ↦ rw e (inr i)
  | inr e ↦ rw e i
]

trigrams-behind :
    (t : ℕ) (pre s : List Byte) → IsIn t (patch_trigrams s) → IsIn t (patch_trigrams (pre ++ s))
trigrams-behind t [] s i = i
trigrams-behind t (a ∷ pre) s i = trigrams-cons t a (pre ++ s) (trigrams-behind t pre s i)

trigrams-before :
    (t : ℕ) (s post : List Byte) → IsIn t (patch_trigrams s) → IsIn t (patch_trigrams (s ++ post))
unfolding patch_trigrams
trigrams-before t [] post i = elim i [ ]
trigrams-before t (a ∷ []) post i = elim i [ ]
trigrams-before t (a ∷ b ∷ []) post i = elim i [ ]
trigrams-before t (a ∷ b ∷ c ∷ r) post i =
    let later = trigrams-before t (b ∷ c ∷ r) post in
    elim (Bool-cases (ltb a 128 && ltb b 128 && ltb c 128)) [
      | inl e ↦
          let i' : (pack_trigram a b c ≡ t) ⊎ IsIn t (patch_trigrams (b ∷ c ∷ r)) = rw e at i in
          rw e (elim i' [ inl q ↦ inl q | inr j ↦ inr (later j) ])
      | inr e ↦ rw e (later (rw e at i))
    ]

pub trigrams-infix :
    (t : ℕ) (pre s post : List Byte)
    → IsIn t (patch_trigrams s)
    → IsIn t (patch_trigrams (pre ++ (s ++ post)))
trigrams-infix t pre s post i = trigrams-behind t pre (s ++ post) (trigrams-before t s post i)

insert_one :
    (tri docid : ℕ) (p : ℕ → Option Bitmap) (t d : ℕ)
    → IsIn d
        (unwrap_or [] (if t == tri then some (bitmap_insert docid (unwrap_or [] (p t))) else p t))
      ↔ (IsIn d (unwrap_or [] (p t)) ⊎ ((docid ≡ d) × (t ≡ tri)))
insert_one tri docid p t d =
    let (f, g) = IsIn-bitmap_insert d docid (unwrap_or [] (p t)) in
    elim (Bool-cases (t == tri)) [
      | inl e ↦ rw e (
        λ i. elim (f i) [ inl q ↦ inr (q, (==_iff t tri).0 e) | inr j ↦ inl j ],
        λ i. g (elim i [ inl j ↦ inr j | inr (q, _) ↦ inl q ]),
      )
      | inr e ↦ rw e (
        λ i. inl i,
        λ i. elim i [ inl j ↦ j | inr (_, q) ↦ absurd (differ e ((==_iff t tri).1 q)) ],
      )
    ]
  where
    differ : {b : Bool} → b ≡ false → b ≡ true → ⊥
    differ f t = cc

IsIn-insert_all :
    (ts : List ℕ) (docid : ℕ) (p : ℕ → Option Bitmap) (t d : ℕ)
    → IsIn d (unwrap_or [] (insert_all ts docid p t))
      ↔ (IsIn d (unwrap_or [] (p t)) ⊎ ((docid ≡ d) × IsIn t ts))
unfolding insert_all
IsIn-insert_all [] docid p t d = (λ i. inl i, λ i. elim i [ inl j ↦ j | inr (_, j) ↦ elim j [ ] ])
IsIn-insert_all (tri ∷ ts) docid p t d =
    let p' : ℕ → Option Bitmap =
      λ x. if x == tri then some (bitmap_insert docid (unwrap_or [] (p x))) else p x in
    let (f, g) = IsIn-insert_all ts docid p' t d in
    let (h, k) = insert_one tri docid p t d in
    (
      λ i. elim (f i) [
        | inl j ↦ elim (h j) [ inl l ↦ inl l | inr (q, e) ↦ inr (q, inl (sym e)) ]
        | inr (q, j) ↦ inr (q, inr j)
      ],
      λ i. g (elim i [
        | inl j ↦ inl (k (inl j))
        | inr (q, inl e) ↦ inl (k (inr (q, sym e)))
        | inr (q, inr j) ↦ inr (q, j)
      ]),
    )

module _ {A : Type 0} where
  get_elem?-snoc_out :
      (xs : List A) (x : A) (d : ℕ) (e : A)
      → get_elem? (xs ++ x ∷ []) d ≡ some e
      → (get_elem? xs d ≡ some e) ⊎ ((length xs ≡ d) × (x ≡ e))
  get_elem?-snoc_out [] x zero e h = inr (refl, some-injective x e h)
  get_elem?-snoc_out [] x (suc d) e h = inl h
  get_elem?-snoc_out (y ∷ ys) x zero e h = inl h
  get_elem?-snoc_out (y ∷ ys) x (suc d) e h = elim (get_elem?-snoc_out ys x d e h) [
    | inl i ↦ inl i
    | inr (n, q) ↦ inr (ap suc n, q)
  ]

  get_elem?-snoc_old :
      (xs : List A) (x : A) (d : ℕ) (e : A)
      → get_elem? xs d ≡ some e
      → get_elem? (xs ++ x ∷ []) d ≡ some e
  get_elem?-snoc_old [] x d e h = absurd (cc)
  get_elem?-snoc_old (y ∷ ys) x zero e h = h
  get_elem?-snoc_old (y ∷ ys) x (suc d) e h = get_elem?-snoc_old ys x d e h

  get_elem?-snoc_new : (xs : List A) (x : A) → get_elem? (xs ++ x ∷ []) (length xs) ≡ some x
  get_elem?-snoc_new [] x = refl
  get_elem?-snoc_new (y ∷ ys) x = get_elem?-snoc_new ys x

  length-map : {B : Type 0} (f : A → B) (xs : List A) → length (map f xs) ≡ length xs
  length-map f [] = refl
  length-map f (x ∷ xs) = ap suc (length-map f xs)

  map-snoc :
      {B : Type 0} (f : A → B) (xs : List A) (x : A) → map f (xs ++ x ∷ []) ≡ map f xs ++ f x ∷ []
  map-snoc f [] x = refl
  map-snoc f (y ∷ ys) x = ap (λ t. f y ∷ t) (map-snoc f ys x)

-- An `add` that returns made the segment that it says.
added : Text → List Byte → Segment → Segment
added m patch s = record {
  postings = insert_all (patch_trigrams patch) (length s.docs) s.postings;
  docs = s.docs ++ m ∷ [];
}

add-ok : (m : Text) (patch : List Byte) (s u : Segment) → add m patch s ≡ ok u → u ≡ added m patch s
unfolding add added
add-ok m patch s u h = elim (Bool-cases (any (λ c. c == 10) m)) [
  | inl e ↦ absurd (let z : ◌≡◌ {A = Result Segment} (err state) (ok u) = rw e at h in cc)
  | inr e ↦ elim (Bool-cases (ltb (length s.docs) (2 ^ 32))) [
    | inl f ↦
        let z : ◌≡◌ {A = Result Segment} (ok (added m patch s)) (ok u) = simp (e, f) at h in cc
    | inr f ↦ absurd (let z : ◌≡◌ {A = Result Segment} (err state) (ok u) = simp (e, f) at h in cc)
  ]
]

added-IsIndex :
    (ds : List Document) (m : Text) (patch : List Byte) (s : Segment)
    → IsIndex ds s
    → IsIndex (ds ++ (m, patch) ∷ []) (added m patch s)
unfolding added
added-IsIndex ds m patch s v =
    let same : length s.docs ≡ length ds = ap length v.ids ∙ length-map (λ e. e.0) ds in
    record {
      ids = ap (λ t. t ++ m ∷ []) v.ids ∙ sym (map-snoc (λ e. e.0) ds (m, patch));
      finds = λ t d.
          let (f, g) = IsIn-insert_all (patch_trigrams patch) (length s.docs) s.postings t d in
          let (h, k) = v.finds t d in
          (
            λ i. elim (f i) [
              | inl j ↦ (let (e, p, q) = h j in (e, get_elem?-snoc_old ds (m, patch) d e p, q))
              | inr (n, j) ↦ ((m, patch), rw (sym n ∙ same) (get_elem?-snoc_new ds (m, patch)), j)
            ],
            λ (e, p, q). g (elim (get_elem?-snoc_out ds (m, patch) d e p) [
              | inl o ↦ inl (k (e, o, q))
              | inr (n, r) ↦ inr (same ∙ n, subst (λ x. IsIn t (patch_trigrams x.1)) (sym r) q)
            ]),
          );
    }

-- Every document of the list, added in order; the first refusal ends it.
unfoldable pub add_all : List Document → Segment → Result Segment
add_all [] s = ok s
add_all (e ∷ es) s = add e.0 e.1 s >>= λ u. add_all es u

add_all-IsIndex :
    (ds es : List Document) (s u : Segment)
    → IsIndex ds s
    → add_all es s ≡ ok u
    → IsIndex (ds ++ es) u
unfolding add_all
add_all-IsIndex ds [] s u v h =
    let q : s ≡ u = cc in
    subst (λ x. IsIndex x u) (sym (append-nil ds)) (subst (λ x. IsIndex ds x) q v)
add_all-IsIndex ds (e ∷ es) s u v h =
    let (w, p, q) = >>=-eq-ok (add e.0 e.1 s) (λ x. add_all es x) h in
    let v' : IsIndex (ds ++ e ∷ []) w =
      subst (λ x. IsIndex (ds ++ e ∷ []) x) (sym (add-ok e.0 e.1 s w p))
        (added-IsIndex ds e.0 e.1 s v) in
    subst (λ x. IsIndex x u) (append_assoc ds (e ∷ []) es)
      (add_all-IsIndex (ds ++ e ∷ []) es w u v' q)

-- After any documents are added to an empty segment, it lists their message ids in order, and the
-- posting of a trigram has exactly the positions of the documents whose patch has the trigram.
pub add_all-empty :
    (es : List Document) (s : Segment) → add_all es empty_segment ≡ ok s → IsIndex es s
add_all-empty es s h = add_all-IsIndex [] es empty_segment s nothing h
  where
    nothing : IsIndex [] empty_segment
    nothing =
        unfold empty_segment in
        record { ids = refl; finds = λ t d. (λ i. elim i [ ], λ (e, p, _). absurd (cc)) }
