-- ===== src/Trigram/Search.antt =====
-- The search of a segment proposes every document that has the needle.
use kernel_lore_mcp.Base.{
  ℕ, zero, suc, ◌≤◌, ◌≡◌, ◌≢◌, refl, sym, ap, ◌∙◌, inl, inr, ◌↔◌, true, false, List, [], ◌∷◌, ◌++◌,
  ltb, length, take, get_elem?, IsIn, All, All-lookup, All-tabulate, IsIn-retain, IsIn-retain_inv,
  arith, retain, ◌==◌, some, Bool-cases, Option-cases, subst, map,
}
use mathlib.Core.Option.{some-injective}
use kernel_lore_mcp.Error.{Result, ok, Done, >>=-eq-ok}
use kernel_lore_mcp.Text.{Text}
use kernel_lore_mcp.Trigram.Numbers.{
  Bitmap, bitmap_has, bitmap_has_iff, sort_dedup, IsIn-sort_dedup,
}
use kernel_lore_mcp.Trigram.Defs.{
  Byte, Segment, patch_trigrams, narrow, intersect, intersect_all, candidate_docids, messages,
  candidates_for_substring, empty_segment, trigram_confirm_limit,
}
use kernel_lore_mcp.Trigram.Index.{
  Document, posting, IsIndex, trigrams-infix, add_all, add_all-empty,
}

-- in every posting
abbrev InAll : Segment → ℕ → List ℕ → Type 0
InAll s d = All (λ t. IsIn d (posting s t))

empty_length : (b : Bitmap) → (length b == 0) ≡ true → b ≡ []
empty_length [] h = refl
empty_length (x ∷ b) h = absurd (ground arith)

nowhere : {A : Type 0} (d : ℕ) (r : Bitmap) → ◌≡◌ {A = Result Bitmap} (ok []) (ok r) → IsIn d r → A
nowhere d [] q i = elim i [ ]
nowhere d (x ∷ r) q i = absurd (cc)

intersect-InAll :
    (check : ℕ → Done) (s : Segment) (ts : List ℕ) (acc r : Bitmap) (d : ℕ)
    → intersect check s ts acc ≡ ok r
    → IsIn d r ↔ (IsIn d acc × InAll s d ts)
unfolding intersect
intersect-InAll check s [] acc r d h =
    let q : acc ≡ r = cc in
    (λ i. (subst (λ b. IsIn d b) (sym q) i, tt), λ (i, _). subst (λ b. IsIn d b) q i)
intersect-InAll check s (tri ∷ ts) acc r d h =
    let go : Bitmap → Result Bitmap = λ both. intersect check s ts both in
    let (_, _, k) = >>=-eq-ok (check tri) (λ _. narrow acc (s.postings tri) go) h in
    elim (Option-cases (s.postings tri)) [
      | inl e ↦
          let q : ◌≡◌ {A = Result Bitmap} (ok []) (ok r) = rw e at k in
          (λ i. absurd (nowhere d r q i), λ (_, (i, _)). absurd (rw e at i))
      | inr (b, e) ↦
          let both = retain (λ x. bitmap_has x b) acc in
          let into : IsIn d both → IsIn d acc × IsIn d (posting s tri) = λ i.
            let (j, t) = IsIn-retain_inv (λ x. bitmap_has x b) d acc i in
            (j, rw e ((bitmap_has_iff d b).0 t)) in
          let back : IsIn d acc → IsIn d (posting s tri) → IsIn d both =
            λ i j. IsIn-retain (λ x. bitmap_has x b) d acc i ((bitmap_has_iff d b).1 (rw e at j)) in
          elim (Bool-cases (length both == 0)) [
            | inl z ↦
                let q : ◌≡◌ {A = Result Bitmap} (ok both) (ok r) = rw (e, z) at k in
                let none_left = empty_length both z in
                (
                  λ i. absurd (nowhere d r (sym (ap ok none_left) ∙ q) i),
                  λ (i, (j, _)). absurd (subst (λ x. IsIn d x) none_left (back i j)),
                )
            | inr z ↦
                let q : intersect check s ts both ≡ ok r = rw (e, z) at k in
                let (f, g) = intersect-InAll check s ts both r d q in
                (
                  λ i. let (j, a) = f i in let (x, y) = into j in (x, (y, a)),
                  λ (i, (j, a)). g (back i j, a),
                )
          ]
    ]

-- A message at a position that was proposed, within the limit, is returned.
messages-IsIn :
    (docs : List Text) (ds : Bitmap) (d : ℕ) (m : Text)
    → IsIn d ds
    → get_elem? docs d ≡ some m
    → IsIn m (messages docs ds)
unfolding messages
messages-IsIn docs [] d m i e = elim i [ ]
messages-IsIn docs (x ∷ ds) d m (inl q) e =
    let e' : get_elem? docs x ≡ some m = rw q e in rw e' (inl refl)
messages-IsIn docs (x ∷ ds) d m (inr i) e =
    let later = messages-IsIn docs ds d m i e in
    elim (Option-cases (get_elem? docs x)) [ inl n ↦ rw n later | inr (y, n) ↦ rw n (inr later) ]

candidates-IsIn :
    (check : ℕ → Done) (s : Segment) (ts : List ℕ) (r : Bitmap) (d : ℕ)
    → intersect_all check s ts ≡ ok r
    → IsIn d r ↔ ((ts ≢ []) × InAll s d ts)
candidates-IsIn check s [] r d h = (λ i. absurd (nowhere d r h i), λ (n, _). absurd (n refl))
candidates-IsIn check s (t ∷ ts) r d h = elim (Option-cases (s.postings t)) [
  | inl e ↦
      let q : ◌≡◌ {A = Result Bitmap} (ok []) (ok r) = rw e at h in
      (λ i. absurd (nowhere d r q i), λ (_, (i, _)). absurd (rw e at i))
  | inr (b, e) ↦
      let (f, g) = intersect-InAll check s ts b r d (rw e at h) in
      (λ i. let (j, a) = f i in (λ z. absurd (cc), (rw e j, a)), λ (_, (j, a)). g (rw e at j, a))
]

get_elem?-map :
    (f : Document → Text) (es : List Document) (d : ℕ) {e : Document}
    → get_elem? es d ≡ some e
    → get_elem? (map f es) d ≡ some (f e)
get_elem?-map f [] d p = absurd (cc)
get_elem?-map f (x ∷ es) zero {e} p = ap (λ z. some (f z)) (some-injective x e p)
get_elem?-map f (x ∷ es) (suc d) p = get_elem?-map f es d p

IsIn-take_all : (n : ℕ) (b : Bitmap) (d : ℕ) → length b ≤ n → IsIn d b → IsIn d (take n b)
IsIn-take_all n [] d l i = elim i [ ]
IsIn-take_all zero (x ∷ b) d l i = absurd (omega (arith, l))
IsIn-take_all (suc n) (x ∷ b) d l (inl q) = inl q
IsIn-take_all (suc n) (x ∷ b) d l (inr i) = inr (IsIn-take_all n b d (omega (arith, l)) i)

-- The document at that position has every trigram of the needle.
abbrev pub HasTrigrams : List Document → List Byte → ℕ → Type 0
HasTrigrams es needle d =
    (e : Document) × (get_elem? es d ≡ some e)
    × All (λ t. IsIn t (patch_trigrams e.1)) (patch_trigrams needle)

found_once :
    (es : List Document) (s : Segment) (d : ℕ) (needle : List Byte)
    → IsIndex es s
    → patch_trigrams needle ≢ []
    → InAll s d (patch_trigrams needle)
    → HasTrigrams es needle d
found_once es s d needle v n a = go (patch_trigrams needle) n a
  where
    go :
        (ts : List ℕ)
        → ts ≢ []
        → InAll s d ts
        → (e : Document) × (get_elem? es d ≡ some e) × All (λ t. IsIn t (patch_trigrams e.1)) ts
    go [] n a = absurd (n refl)
    go (t ∷ ts) n a =
        let (e, p, i) = (v.finds t d).0 a.0 in
        (
          e,
          p,
          (
            i,
            All-tabulate (λ u. IsIn u (patch_trigrams e.1)) ts
                (λ u j.
                  let (e', p', i') =
                    (v.finds u d).0 (All-lookup (λ x. IsIn d (posting s x)) ts u a.1 j) in
                  subst (λ x. IsIn u (patch_trigrams x.1)) (some-injective e' e (sym p' ∙ p)) i'),
          ),
        )

sort_dedup-nil : (ts : List ℕ) → (ts ≡ []) ↔ (sort_dedup ts ≡ [])
sort_dedup-nil [] = (λ h. unfold sort_dedup in refl, λ h. refl)
sort_dedup-nil (t ∷ ts) = (
  λ h. absurd (cc),
  λ h. absurd (subst (λ x. IsIn t x) h ((IsIn-sort_dedup t (t ∷ ts)).1 (inl refl))),
)

-- In the segment of any documents, a search that returns proposes exactly the positions of the
-- documents whose patch has every trigram of the needle, and no position when the needle has no
-- trigram of ASCII bytes.
pub candidate_docids_iff :
    (check : ℕ → Done) (es : List Document) (s : Segment) (needle : List Byte) (r : Bitmap) (d : ℕ)
    → add_all es empty_segment ≡ ok s
    → candidate_docids check s needle ≡ ok r
    → IsIn d r ↔ ((patch_trigrams needle ≢ []) × HasTrigrams es needle d)
candidate_docids_iff check es s needle r d b h =
    let v = add_all-empty es s b in
    let ts = patch_trigrams needle in
    let (f, g) = candidates-IsIn check s (sort_dedup ts) r d (unfold candidate_docids in h) in
    let (z, z') = sort_dedup-nil ts in
    (
      λ i.
          let (n, a) = f i in
          let m : ts ≢ [] = λ q. n (z q) in
          (
            m,
            found_once es s d needle v m (
                All-tabulate (λ t. IsIn d (posting s t)) ts
                  (λ t j.
                    All-lookup (λ x. IsIn d (posting s x)) (sort_dedup ts) t a
                      ((IsIn-sort_dedup t ts).1 j))),
          ),
      λ (n, (e, p, a)). g (
        λ q. n (z' q),
        All-tabulate (λ t. IsIn d (posting s t)) (sort_dedup ts)
            (λ t j. (v.finds t d).1 (
              e,
              p,
              All-lookup (λ u. IsIn u (patch_trigrams e.1)) ts t a ((IsIn-sort_dedup t ts).0 j),
            )),
      ),
    )

-- A search for a needle of three bytes or more that has a trigram of ASCII bytes misses no document
-- whose patch contains the needle, if it returns and proposes no more than 4096 positions.
pub candidates_for_substring_complete :
    (check : ℕ → Done) (es : List Document) (s : Segment) (pre needle post : List Byte)
    (bitmap : Bitmap) (d : ℕ) (message_id : Text)
    → add_all es empty_segment ≡ ok s
    → get_elem? es d ≡ some (message_id, pre ++ (needle ++ post))
    → patch_trigrams needle ≢ []
    → candidate_docids check s needle ≡ ok bitmap
    → length bitmap ≤ trigram_confirm_limit
    → (r : List Text) × (candidates_for_substring check s needle ≡ ok r) × IsIn message_id r
candidates_for_substring_complete check es s pre needle post bitmap d message_id b p n h l =
    let i : IsIn d bitmap = (candidate_docids_iff check es s needle bitmap d b h).1 (
      n,
      (
        (message_id, pre ++ (needle ++ post)),
        p,
        All-tabulate (λ t. IsIn t (patch_trigrams (pre ++ (needle ++ post))))
            (patch_trigrams needle) (λ t j. trigrams-infix t pre needle post j),
      ),
    ) in
    let q : get_elem? s.docs d ≡ some message_id =
      subst (λ x. get_elem? x d ≡ some message_id) (sym ((add_all-empty es s b).ids))
        (get_elem?-map (λ e. e.0) es d p) in
    let w : ltb (length needle) 3 ≡ false = long needle n in
    (
      messages s.docs (take trigram_confirm_limit bitmap),
      unfold candidates_for_substring in rw (w, h) refl,
      messages-IsIn s.docs (take trigram_confirm_limit bitmap) d message_id
          (IsIn-take_all trigram_confirm_limit bitmap d l i) q,
    )
  where
    long : (x : List Byte) → patch_trigrams x ≢ [] → ltb (length x) 3 ≡ false
    long [] n = absurd (n (unfold patch_trigrams in refl))
    long (a ∷ []) n = absurd (n (unfold patch_trigrams in refl))
    long (a ∷ b ∷ []) n = absurd (n (unfold patch_trigrams in refl))
    long (a ∷ b ∷ c ∷ r) n = ground arith

intersect-returns :
    (check : ℕ → Done) (s : Segment) (ts : List ℕ) (acc : Bitmap)
    → ((t : ℕ) → check t ≡ ok tt)
    → (r : Bitmap) × (intersect check s ts acc ≡ ok r)
unfolding intersect
intersect-returns check s [] acc c = (acc, refl)
intersect-returns check s (t ∷ ts) acc c = elim (Option-cases (s.postings t)) [
  | inl e ↦ ([], rw (c t, e) refl)
  | inr (b, e) ↦
      let both = retain (λ x. bitmap_has x b) acc in
      let (r, q) = intersect-returns check s ts both c in
      elim (Bool-cases (length both == 0)) [
        | inl z ↦ (both, rw (c t, e, z) refl)
        | inr z ↦ (r, rw (c t, e, z) q)
      ]
]

-- A search whose deadline checks pass returns.
pub candidate_docids-returns :
    (check : ℕ → Done) (s : Segment) (needle : List Byte)
    → ((t : ℕ) → check t ≡ ok tt)
    → (r : Bitmap) × (candidate_docids check s needle ≡ ok r)
unfolding candidate_docids
candidate_docids-returns check s needle c = all (sort_dedup (patch_trigrams needle))
  where
    all : (ts : List ℕ) → (r : Bitmap) × (intersect_all check s ts ≡ ok r)
    all [] = ([], refl)
    all (t ∷ ts) = elim (Option-cases (s.postings t)) [
      | inl e ↦ ([], rw e refl)
      | inr (b, e) ↦ (let (r, q) = intersect-returns check s ts b c in (r, rw e q))
    ]
