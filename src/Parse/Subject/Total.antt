-- ===== src/Parse/Subject/Total.antt =====
-- `decompose_subject` returns for every text, and what its numbers are bounded by.
use kernel_lore_mcp.Base.{
  bind-some, or_else-some, ℕ, zero, suc, ◌-◌, ◌<◌, ◌≡◌, refl, ap, ◌∙◌, ◌⊎◌, inl, inr, List, [], ◌∷◌,
  length, drop, ltb, ltb→lt, arith, Option, none, some, or_else, Bool-cases, Option-cases,
}
use mathlib.Core.Option.{some-injective}
use kernel_lore_mcp.Text.{
  Text, codes, trim, trim_start, to_ascii_lowercase, strip_prefix, split_once,
}
use kernel_lore_mcp.Text.Decimal.{parse_unsigned, parse_unsigned-lt, u32_bound}
use kernel_lore_mcp.Text.Distinct.{push_new, IsDistinct, push_new-IsDistinct}
use kernel_lore_mcp.Text.Lengths.{
  length-drop, length-to_ascii_lowercase, length-trim_start_le, length-trim_le, length-strip_prefix,
  length-split_once,
}
use kernel_lore_mcp.Parse.Subject.Defs.{
  behind, after_reply, strip_replies, Subject, set_version, set_numbers, version_of, numbers_of,
  read_tokens, read_tag, bracket, strip_tags, dedup_tags, no_subject, decompose_subject,
}

behind-shorter :
    (prefix t r : Text) → 0 < length prefix → behind prefix t ≡ some r → length r < length t
behind-shorter prefix t r h e =
    let (u, p, q) =
      bind-some (strip_prefix prefix (to_ascii_lowercase t))
        (λ x. some (drop (length t - length x) t)) r e in
    let same : drop (length t - length u) t ≡ r =
      some-injective (drop (length t - length u) t) r q in
    omega (
      arith,
      ap length same,
      length-drop (length t - length u) t,
      length-strip_prefix prefix (to_ascii_lowercase t) u p,
      length-to_ascii_lowercase t,
    )

after_reply-shorter : (t r : Text) → after_reply t ≡ some r → length r < length t
unfolding after_reply
after_reply-shorter t r h =
    elim (or_else-some (behind (codes "re:") t)
      (or_else (behind (codes "fwd:") t) (behind (codes "fw:") t)) r h) [
        | inl e ↦ behind-shorter (codes "re:") t r (omega arith) e
        | inr e ↦ elim (or_else-some (behind (codes "fwd:") t) (behind (codes "fw:") t) r e) [
          | inl f ↦ behind-shorter (codes "fwd:") t r (omega arith) f
          | inr f ↦ behind-shorter (codes "fw:") t r (omega arith) f
        ]
      ]

strip_replies-returns :
    (f : ℕ) (s : Text)
    → length s < f
    → (r : Text) × (strip_replies f s ≡ some r) × (after_reply r ≡ none)
unfolding strip_replies
strip_replies-returns zero s h = absurd (omega (arith, h))
strip_replies-returns (suc f) s h = elim (Option-cases (after_reply (trim_start s))) [
  | inl e ↦ (trim_start s, rw e refl, e)
  | inr (r, e) ↦
      let (t, p, q) =
        strip_replies-returns f r
          (omega (arith, after_reply-shorter (trim_start s) r e, length-trim_start_le s)) in
      (t, rw e p, q)
]

-- Version and numbering fit in 32 bits, the numbering is there as a whole or not at all, and its
-- total is positive.
abbrev pub IsNumbered : Option ℕ → Option ℕ → Type 0
IsNumbered index total =
    ((index ≡ none) × (total ≡ none))
    ⊎ ((i : ℕ) × (n : ℕ) × (index ≡ some i)
        × (total ≡ some n)
        × (i < u32_bound)
        × (0 < n)
        × (n < u32_bound))

abbrev pub IsBounded : Subject → Type 0
IsBounded s = (s.version < u32_bound) × IsNumbered s.index s.total

version_of-lt : (tok : Text) (v : ℕ) → version_of tok ≡ some v → v < u32_bound
unfolding version_of
version_of-lt tok v h =
    let (n, _, q) =
      bind-some (or_else (strip_prefix (codes "v") tok) (strip_prefix (codes "V") tok))
        (λ n. parse_unsigned u32_bound n) v h in
    parse_unsigned-lt u32_bound n v (omega arith) q

numbers_of-lt :
    (tok : Text) (i n : ℕ) → numbers_of tok ≡ some (i, n) → (i < u32_bound) × (n < u32_bound)
unfolding numbers_of
numbers_of-lt tok i n h =
    let ((l, r), _, q) = bind-some (split_once 47 tok) _ (i, n) h in
    let (i', p, q') = bind-some (parse_unsigned u32_bound l) _ (i, n) q in
    let (n', p', q'') = bind-some (parse_unsigned u32_bound r) _ (i, n) q' in
    let same = some-injective (i', n') (i, n) q'' in
    (
      parse_unsigned-lt u32_bound l i (omega arith) (p ∙ ap (λ z. some z.0) same),
      parse_unsigned-lt u32_bound r n (omega arith) (p' ∙ ap (λ z. some z.1) same),
    )

set_version-IsBounded :
    (o : Option ℕ) (s : Subject)
    → ((v : ℕ) → o ≡ some v → v < u32_bound)
    → IsBounded s
    → IsBounded (set_version o s)
set_version-IsBounded none s h b = b
set_version-IsBounded (some v) s h b = elim (Bool-cases (ltb 0 v)) [
  | inl e ↦ rw e (h v refl, b.1)
  | inr e ↦ rw e b
]

set_numbers-IsBounded :
    (o : Option (ℕ × ℕ)) (s : Subject)
    → ((i n : ℕ) → o ≡ some (i, n) → (i < u32_bound) × (n < u32_bound))
    → IsBounded s
    → IsBounded (set_numbers o s)
set_numbers-IsBounded none s h b = b
set_numbers-IsBounded (some (l, r)) s h b = elim (Bool-cases (ltb 0 r)) [
  | inl e ↦ rw e (b.0, inr (l, r, refl, refl, (h l r refl).0, ltb→lt 0 r e, (h l r refl).1))
  | inr e ↦ rw e b
]

read_tokens-IsBounded :
    (toks : List Text) (s : Subject) → IsBounded s → IsBounded (read_tokens toks s)
unfolding read_tokens
read_tokens-IsBounded [] s b = b
read_tokens-IsBounded (tok ∷ toks) s b =
    read_tokens-IsBounded toks (set_numbers (numbers_of tok) (set_version (version_of tok) s)) (
      set_numbers-IsBounded (numbers_of tok) (set_version (version_of tok) s) (numbers_of-lt tok)
        (set_version-IsBounded (version_of tok) s (version_of-lt tok) b))

bracket-shorter :
    (t : Text) (parts : Text × Text) → bracket t ≡ some parts → length parts.1 < length t
unfolding bracket
bracket-shorter t parts h =
    let (tail, p, q) = bind-some (strip_prefix (codes "[") t) (λ x. split_once 93 x) parts h in
    omega
      (arith, length-strip_prefix (codes "[") t tail p, length-split_once 93 tail parts.0 parts.1 q)

strip_tags-returns :
    (f : ℕ) (s : Subject)
    → length s.normalized < f
    → IsBounded s
    → (t : Subject) × (strip_tags f s ≡ some t) × IsBounded t × (bracket t.normalized ≡ none)
unfolding strip_tags read_tag
strip_tags-returns zero s h b = absurd (omega (arith, h))
strip_tags-returns (suc f) s h b = elim (Option-cases (bracket (trim_start s.normalized))) [
  | inl e ↦ (record s { normalized = trim_start s.normalized }, rw e refl, b, e)
  | inr (parts, e) ↦
      let next = record (read_tag parts.0 s) { normalized = parts.1 } in
      let (t, p, q, z) =
        strip_tags-returns f next
          (omega (
            arith,
            bracket-shorter (trim_start s.normalized) parts e,
            length-trim_start_le s.normalized,
          ))
          (read_tokens-IsBounded _ _ b) in
      (t, rw e p, q, z)
]

dedup_tags-IsDistinct : (ts seen : List Text) → IsDistinct seen → IsDistinct (dedup_tags ts seen)
unfolding dedup_tags
dedup_tags-IsDistinct [] seen d = d
dedup_tags-IsDistinct (t ∷ ts) seen d =
    dedup_tags-IsDistinct ts (push_new t seen) (push_new-IsDistinct t seen d)

-- The loops over a subject line end for every text. The tags are listed once each, the version and
-- the numbering fit in 32 bits, and there is a numbering with a positive total or none.
pub decompose_subject-returns :
    (raw : Text)
    → (s : Subject) × (decompose_subject raw ≡ some s) × IsDistinct s.tags × IsBounded s
unfolding decompose_subject
decompose_subject-returns raw =
    let (rest, p, _) =
      strip_replies-returns (suc (length raw)) (trim raw) (omega (arith, length-trim_le raw)) in
    let (s, q, b, _) =
      strip_tags-returns (suc (length rest)) (no_subject rest) (omega arith)
        (omega arith, inl (refl, refl)) in
    (
      record s { normalized = trim s.normalized; tags = dedup_tags s.tags [] },
      rw (p, q) refl,
      dedup_tags-IsDistinct s.tags [] tt,
      b,
    )
