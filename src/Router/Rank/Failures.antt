-- ===== src/Router/Rank/Failures.antt =====
-- When `dispatch` fails.
use kernel_lore_mcp.Base.{
  ℕ, ◌*◌, ◌%◌, ◌≡◌, ◌≢◌, ap, ◌⊎◌, inl, inr, ◌↔◌, Bool, List, [], length, ◌==◌, Option, none,
  Bool-cases, arith,
}
use kernel_lore_mcp.Error.{Error, Result, ok, err, err-injective, >>=-eq-err}
use kernel_lore_mcp.Text.{Text}
use kernel_lore_mcp.Reader.{MessageRow, Prose, found, behind_corpus, failed, Reader}
use kernel_lore_mcp.Router.Defs.{ParsedQuery}
use kernel_lore_mcp.Router.Rank.Defs.{
  Machine, usize, rewrite_free_text_for_bm25, rows_and_notes, run_metadata, run_trigram, run_bm25,
  dispatch,
}

-- the answer of the prose search that `run_bm25` asks for
abbrev pub prose : {F : Type 0} → Reader F → ParsedQuery → ℕ → Prose F
prose reader p limit =
    reader.prose_search_filtered (rewrite_free_text_for_bm25 p.free_text).0 p.list
      (limit * 2 % usize)

module _ {F : Type 0} (reader : Reader F) (p : ParsedQuery) (limit : ℕ) where
  -- The prose search is asked, and fails otherwise than by an index behind the corpus.
  abbrev pub ProseFails : Error → Type 0
  ProseFails e = (length p.free_text ≢ 0) × (prose reader p limit ≡ failed e)

  rows_and_notes-fails :
      (b : Bool) (r : Prose F) (e : Error)
      → (rows_and_notes reader p limit b r ≡ err e) ↔ (r ≡ failed e)
  rows_and_notes-fails b (found scored) e = (λ h. absurd (cc), λ h. absurd (cc))
  rows_and_notes-fails b behind_corpus e = (λ h. absurd (cc), λ h. absurd (cc))
  rows_and_notes-fails b (failed f) e = (λ h. ap failed (err-injective f e h), λ h. cc)

  run_bm25-fails : (e : Error) → (run_bm25 reader p limit ≡ err e) ↔ ProseFails e
  unfolding run_bm25
  run_bm25-fails e = elim (Bool-cases (length p.free_text == 0)) [
    | inl b ↦ (λ h. absurd (clash (rw b at h)), λ h. absurd (h.0 (ground (arith, b))))
    | inr b ↦
        let (f, g) =
          rows_and_notes-fails (rewrite_free_text_for_bm25 p.free_text).1 (prose reader p limit)
            e in
        (λ h. (ground (arith, b), f (rw b at h)), λ h. rw b (g h.1))
  ]
    where
      clash : ◌≡◌ {A = Result (Option (List MessageRow) × List Text)} (ok (none, [])) (err e) → ⊥
      clash h = cc

  -- A dispatch fails exactly with the error of the metadata tier, else of the trigram tier, else of
  -- the prose search. A prose index that is behind the corpus does not make it fail.
  pub dispatch-fails_iff :
      (m : Machine F) (e : Error)
      → (dispatch m reader p limit ≡ err e) ↔ (
          (run_metadata reader p limit ≡ err e)
          ⊎ ((meta : Option (List MessageRow)) × (run_metadata reader p limit ≡ ok meta)
              × ((run_trigram reader p limit ≡ err e)
                  ⊎ ((trigram : Option (List MessageRow)) × (run_trigram reader p limit
                        ≡ ok trigram)
                      × ProseFails e))))
  unfolding dispatch
  dispatch-fails_iff m e =
      let (f, g) = >>=-eq-err (run_metadata reader p limit) _ e in
      (
        λ h. elim (f h) [
          | inl q ↦ inl q
          | inr (meta, q, k) ↦ inr (
            meta,
            q,
            elim ((>>=-eq-err (run_trigram reader p limit) _ e).0 k) [
              | inl r ↦ inl r
              | inr (trigram, r, l) ↦ inr (
                trigram,
                r,
                elim ((>>=-eq-err (run_bm25 reader p limit) _ e).0 l) [
                  | inl s ↦ (run_bm25-fails e).0 s
                  | inr (_, _, z) ↦ absurd (cc)
                ],
              )
            ],
          )
        ],
        λ h. elim h [
          | inl q ↦ g (inl q)
          | inr (meta, q, k) ↦ g (
              inr (
                meta,
                q,
                elim k [
                  | inl r ↦ (>>=-eq-err (run_trigram reader p limit) _ e).1 (inl r)
                  | inr (trigram, r, s) ↦ (>>=-eq-err (run_trigram reader p limit) _ e).1 (
                      inr (
                        trigram,
                        r,
                        (>>=-eq-err (run_bm25 reader p limit) _ e).1 (inl ((run_bm25-fails e).1 s)),
                      ))
                ],
              ))
        ],
      )
