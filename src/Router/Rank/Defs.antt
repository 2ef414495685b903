-- ===== src/Router/Rank/Defs.antt =====
-- `dispatch` and `rrf_merge`. The three tiers run in parallel and only read, so they stand one
-- behind the other here.
use kernel_lore_mcp.Base.{
  ℕ, suc, ◌*◌, ◌-◌, ◌^◌, ◌%◌, Bool, false, not, ◌&&◌, ◌||◌, List, [], ◌∷◌, ◌++◌, map, if◌then◌else◌,
  leb, ltb, ◌==◌, length, take, retain, any, Option, none, some, is_some, sort_by,
}
use kernel_lore_mcp.Error.{Result, ok, err, ◌>>=◌}
use kernel_lore_mcp.Text.{Text, codes, contains, text_eq}
use kernel_lore_mcp.Text.Distinct.{push_new}
use kernel_lore_mcp.Dict.{Dict, lookup, insert}
use kernel_lore_mcp.Reader.{
  MessageRow, field_from_addr, Prose, found, behind_corpus, failed, Reader,
}
use kernel_lore_mcp.Router.Defs.{ParsedQuery}

-- `f32`, Unicode lower case, and the order in which a `HashMap` gives its entries
pub record Machine (F : Type 0) : Type 0 where
  pub of_nat : ℕ → F
  pub plus : F → F → F
  pub div : F → F → F
  pub gt : F → F → Bool
  pub to_lowercase : Text → Text
  pub tier_order : Dict (List MessageRow) → Dict (List MessageRow)
  pub hit_order : Dict (MessageRow × F × List Text) → Dict (MessageRow × F × List Text)

pub record RankedHit (F : Type 0) : Type 0 where
  pub row : MessageRow
  pub fused_score : F
  pub tier_provenance : List Text
  pub is_exact_match : Bool

abbrev pub rrf_k : ℕ
rrf_k = 60

abbrev pub usize : ℕ
usize = 2 ^ 64

abbrev pub saturating_mul : ℕ → ℕ → ℕ
saturating_mul a b = if ltb (a * b) usize then a * b else usize - 1

-- the texts between blanks, as `join` writes them
unfoldable pub join : List Text → Text
join [] = []
join (w ∷ []) = w
join (w ∷ v ∷ ws) = w ++ 32 ∷ join (v ∷ ws)

unfoldable pub rewrite_free_text_for_bm25 : List Text → Text × Bool
rewrite_free_text_for_bm25 free_text =
    let raw = join free_text in
    let rewritten = map (λ c. if c == 45 then 32 else c) raw in
    (rewritten, not (text_eq rewritten raw))

abbrev pub is_exact : List Text → Bool
is_exact prov = any (λ p. text_eq p (codes "metadata") || text_eq p (codes "trigram")) prov

module _ {F : Type 0} (m : Machine F) where
  abbrev pub contrib : ℕ → F
  contrib rank = m.div (m.of_nat 1) (m.plus (m.of_nat rrf_k) (m.plus (m.of_nat rank) (m.of_nat 1)))

  -- one row of a tier
  abbrev pub entry :
      Text → ℕ → MessageRow → Option (MessageRow × F × List Text) → MessageRow × F × List Text
  entry tier rank row none = (row, contrib rank, tier ∷ [])
  entry tier rank row (some (r, score, prov)) = (r, m.plus score (contrib rank), push_new tier prov)

  abbrev pub add_row :
      Text → ℕ → MessageRow → Dict (MessageRow × F × List Text) → Dict (MessageRow × F × List Text)
  add_row tier rank row acc =
      insert row.message_id (entry tier rank row (lookup row.message_id acc)) acc

  -- the inner loop, from a rank on
  unfoldable pub add_rows :
      Text
      → ℕ
      → List MessageRow
      → Dict (MessageRow × F × List Text)
      → Dict (MessageRow × F × List Text)
  add_rows tier rank [] acc = acc
  add_rows tier rank (row ∷ rows) acc = add_rows tier (suc rank) rows (add_row tier rank row acc)

  -- the outer loop
  unfoldable pub add_tiers :
      Dict (List MessageRow) → Dict (MessageRow × F × List Text) → Dict (MessageRow × F × List Text)
  unfolding add_rows
  add_tiers [] acc = acc
  add_tiers ((tier, rows) ∷ tiers) acc = add_tiers tiers (add_rows tier 0 rows acc)

  abbrev pub to_hit : Text × (MessageRow × F × List Text) → RankedHit F
  to_hit (mid, (row, score, prov)) = record {
    row = row;
    fused_score = score;
    tier_provenance = prov;
    is_exact_match = is_exact prov;
  }

  unfoldable pub rrf_merge : Dict (List MessageRow) → ℕ → List (RankedHit F)
  unfolding add_tiers
  rrf_merge tiers limit = take limit (
      sort_by (λ a b. m.gt a.fused_score b.fused_score)
        (map to_hit (m.hit_order (add_tiers (m.tier_order tiers) []))))

  -- the predicates that the tiers may have left out
  abbrev pub in_list : Text → MessageRow → Bool
  in_list list row = text_eq row.list list

  abbrev pub has_sender : Text → MessageRow → Bool
  has_sender from row = elim row.from_addr [
    | none ↦ false
    | some a ↦ contains (m.to_lowercase from) (m.to_lowercase a)
  ]

  abbrev pub is_since : ℕ → MessageRow → Bool
  is_since since row = elim row.date_unix_ns [ none ↦ false | some d ↦ leb since d ]

  abbrev pub is_until : ℕ → MessageRow → Bool
  is_until until row = elim row.date_unix_ns [ none ↦ false | some d ↦ ltb d until ]

  abbrev pub retain_if :
      {A : Type 0} → Option A → (A → MessageRow → Bool) → List (RankedHit F) → List (RankedHit F)
  retain_if none test hits = hits
  retain_if (some a) test hits = retain (λ h. test a h.row) hits

  unfoldable pub post_filter : ParsedQuery → List (RankedHit F) → List (RankedHit F)
  post_filter p merged = retain_if p.until_unix_ns is_until (
      retain_if p.since_unix_ns is_since
        (retain_if p.from_addr has_sender (retain_if p.list in_list merged)))

module _ {F : Type 0} (reader : Reader F) (p : ParsedQuery) (limit : ℕ) where
  abbrev pub metadata_relevant : Bool
  metadata_relevant =
      is_some p.message_id
      || is_some p.touched_file
      || is_some p.touched_function
      || is_some p.from_addr
      || is_some p.fixes_sha
      || (length p.free_text == 0 && not (is_some p.patch_substring))

  abbrev pub to_list : Option MessageRow → List MessageRow
  to_list none = []
  to_list (some r) = r ∷ []

  -- the chain of `if let`, from its end
  abbrev pub by_list : Result (List MessageRow)
  by_list =
      if is_some p.list || is_some p.since_unix_ns || is_some p.until_unix_ns
      then reader.all_rows p.list p.since_unix_ns p.until_unix_ns
          (some (if ltb (saturating_mul limit 20) 10000 then 10000 else saturating_mul limit 20))
      else ok []

  abbrev pub by_sender : Option Text → Result (List MessageRow)
  by_sender none = by_list
  by_sender (some from) =
      reader.eq field_from_addr from p.since_unix_ns p.until_unix_ns p.list limit

  abbrev pub by_file : Result (List MessageRow)
  by_file =
      if is_some p.touched_file || is_some p.touched_function
      then reader.activity p.touched_file p.touched_function p.since_unix_ns p.until_unix_ns p.list
          limit
      else by_sender p.from_addr

  abbrev pub by_citation : Option Text → Result (List MessageRow)
  by_citation none = by_file
  by_citation (some sha) = reader.expand_citation sha limit

  abbrev pub by_message_id : Option Text → Result (List MessageRow)
  by_message_id none = by_citation p.fixes_sha
  by_message_id (some mid) = reader.fetch_message mid >>= λ r. ok (to_list r)

  unfoldable pub run_metadata : Result (Option (List MessageRow))
  run_metadata =
      if metadata_relevant then (by_message_id p.message_id >>= λ rows. ok (some rows)) else ok none

  abbrev pub search_patch : Option Text → Result (Option (List MessageRow))
  search_patch none = ok none
  search_patch (some needle) = reader.patch_search needle p.list limit >>= λ rows. ok (some rows)

  unfoldable pub run_trigram : Result (Option (List MessageRow))
  run_trigram = search_patch p.patch_substring

  -- what `dispatch` takes from the prose search: the rows and the notes
  abbrev pub rows_and_notes : Bool → Prose F → Result (Option (List MessageRow) × List Text)
  rows_and_notes hyphen_split (found scored) =
      ok (some (map (λ s. s.0) scored), if hyphen_split then codes "hyphen-split" ∷ [] else [])
  rows_and_notes hyphen_split behind_corpus = ok (none, codes "bm25_unavailable_stale_index" ∷ [])
  rows_and_notes hyphen_split (failed e) = err e

  unfoldable pub run_bm25 : Result (Option (List MessageRow) × List Text)
  run_bm25 =
      if length p.free_text == 0
      then ok (none, [])
      else rows_and_notes (rewrite_free_text_for_bm25 p.free_text).1 (
          reader.prose_search_filtered (rewrite_free_text_for_bm25 p.free_text).0 p.list
            (limit * 2 % usize))

abbrev pub insert_some :
    Text → Option (List MessageRow) → Dict (List MessageRow) → Dict (List MessageRow)
insert_some tier none tiers = tiers
insert_some tier (some rows) tiers = insert tier rows tiers

unfoldable pub tier_results :
    Option (List MessageRow)
    → Option (List MessageRow)
    → Option (List MessageRow)
    → Dict (List MessageRow)
tier_results meta trigram bm25 =
    insert_some (codes "bm25") bm25
      (insert_some (codes "trigram") trigram (insert_some (codes "metadata") meta []))

unfoldable pub dispatch :
    {F : Type 0} → Machine F → Reader F → ParsedQuery → ℕ → Result (List (RankedHit F) × List Text)
dispatch m reader p limit = run_metadata reader p limit >>= λ meta.
    run_trigram reader p limit >>= λ trigram. run_bm25 reader p limit >>= λ bm25. ok (
      take limit
          (post_filter m p (rrf_merge m (tier_results meta trigram bm25.0) (limit * 2 % usize))),
      bm25.1,
    )
