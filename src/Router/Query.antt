-- ===== src/Router/Query.antt =====
-- What a query that is accepted means.
use kernel_lore_mcp.Base.{
  ℕ, ◌<◌, ◌≡◌, ◌≢◌, refl, ap, ◌∙◌, inl, inr, Bool, true, false, List, [], ◌∷◌, if◌then◌else◌, All,
  arith, some, Option-cases, subst,
}
use kernel_lore_mcp.Error.{Result, ok, err, query_parse, >>=-eq-ok}
use kernel_lore_mcp.Text.{Text, codes, text_eq, split_once}
use kernel_lore_mcp.Router.Defs.{
  Token, tokenize_tagged, ParsedQuery, no_query, Calendar, keyed, bare, one_token, apply_tokens,
  is_reversed, parse_query,
}

-- A quoted token has a key, and the key is not that of the message bodies.
abbrev pub IsAllowed : Token → Type 0
IsAllowed t =
    t.1 ≡ true
    → (key : Text) × (value : Text) × (split_once 58 t.0 ≡ some (key, value)) × (key ≢ codes "b")

bare_quoted : (tok : Text) (q p : ParsedQuery) → bare tok true q ≡ ok p → ⊥
bare_quoted tok q p h = cc

keyed_quoted :
    (cal : Calendar) (value : Text) (q p : ParsedQuery)
    → keyed cal (codes "b") value true q ≡ ok p
    → ⊥
unfolding text_eq
keyed_quoted cal value q p h = cc

one_token-IsAllowed :
    (cal : Calendar) (tok : Text) (quoted : Bool) (q p : ParsedQuery)
    → one_token cal tok quoted (split_once 58 tok) q ≡ ok p
    → IsAllowed (tok, quoted)
one_token-IsAllowed cal tok quoted q p h t = elim (Option-cases (split_once 58 tok)) [
  | inl e ↦ absurd (bare_quoted tok q p (subst (λ b. bare tok b q ≡ ok p) t (rw e at h)))
  | inr ((key, value), e) ↦ (
    key,
    value,
    e,
    λ z. keyed_quoted cal value q p (
        subst (λ k. keyed cal k value true q ≡ ok p) z
          (subst (λ b. keyed cal key value b q ≡ ok p) t (rw e at h))),
  )
]

apply_tokens-IsAllowed :
    (cal : Calendar) (toks : List Token) (q p : ParsedQuery)
    → apply_tokens cal toks q ≡ ok p
    → All IsAllowed toks
unfolding apply_tokens
apply_tokens-IsAllowed cal [] q p h = tt
apply_tokens-IsAllowed cal ((tok, quoted) ∷ toks) q p h =
    let (next, a, b) =
      >>=-eq-ok (one_token cal tok quoted (split_once 58 tok) q) (λ n. apply_tokens cal toks n) h in
    (one_token-IsAllowed cal tok quoted q next a, apply_tokens-IsAllowed cal toks next p b)

-- In a query that is accepted, the lower bound is before the upper bound where it has both, and
-- every quoted token has a key other than `b`, so no phrase goes to the search of message bodies.
pub parse_query_sound :
    (cal : Calendar) (text : Text) (p : ParsedQuery)
    → parse_query cal text ≡ ok p
    → ((since until : ℕ)
        → p.since_unix_ns ≡ some since
        → p.until_unix_ns ≡ some until
        → since < until)
      × All IsAllowed (tokenize_tagged text)
unfolding parse_query
parse_query_sound cal text p h =
    let (out, a, b) =
      >>=-eq-ok (apply_tokens cal (tokenize_tagged text) no_query)
        (λ o. if is_reversed o.since_unix_ns o.until_unix_ns then err query_parse else ok o) h in
    let (same, n) = passed (is_reversed out.since_unix_ns out.until_unix_ns) out b in
    (
      λ since until s u. in_order since until (
          subst (λ x. is_reversed x (some until) ≡ false) (ap (λ z. z.since_unix_ns) same ∙ s)
            (subst (λ y. is_reversed out.since_unix_ns y ≡ false)
              (ap (λ z. z.until_unix_ns) same ∙ u) n)),
      apply_tokens-IsAllowed cal (tokenize_tagged text) no_query out a,
    )
  where
    passed :
        (r : Bool) (out : ParsedQuery)
        → ◌≡◌ {A = Result ParsedQuery} (if r then err query_parse else ok out) (ok p)
        → (out ≡ p) × (r ≡ false)
    passed true out h = absurd (cc)
    passed false out h = (cc, refl)

    in_order : (since until : ℕ) → is_reversed (some since) (some until) ≡ false → since < until
    in_order since until n = ground arith
