-- ===== src/Tests/Rank.antt =====
-- src/router.rs: a query for two tiers, one that fails, and a cursor.
use kernel_lore_mcp.Base.{
  ℕ, ◌+◌, ◌*◌, ◌/◌, ◌≤◌, ◌≡◌, refl, ◌⊎◌, ◌↔◌, true, false, List, [], ◌∷◌, ◌++◌, ltb, Option, none,
  some, All, length, sort_by,
}
use mathlib.Core.Option.{some-injective}
use kernel_lore_mcp.Error.{ok, err, io}
use kernel_lore_mcp.Text.{Text, codes, to_ascii_lowercase, text_eq, text_eq_iff}
use kernel_lore_mcp.Text.Distinct.{push_new, listed}
use kernel_lore_mcp.Text.Keyed.{IsKeyed}
use kernel_lore_mcp.Dict.{lookup, insert}
use kernel_lore_mcp.Reader.{MessageRow, Prose, found, failed, Reader}
use kernel_lore_mcp.Router.{ParsedQuery, no_query}
use kernel_lore_mcp.Router.Rank.{
  Machine, RankedHit, run_metadata, run_trigram, run_bm25, post_filter, rewrite_free_text_for_bm25,
  rrf_merge, join, tier_results, dispatch,
}
use kernel_lore_mcp.Router.Rank.Merge.{IsHit, IsOrder, message_id_of}
use kernel_lore_mcp.Router.Rank.Hits.{IsAsked, Returned, dispatch-IsAsked}
use kernel_lore_mcp.Router.Rank.Failures.{ProseFails, dispatch-fails_iff}
use kernel_lore_mcp.Router.Cursor.{
  Bytes, CursorPayload, Crypto, IsHmac, sign_cursor, verify_cursor, verify_cursor_iff,
  verify_cursor-sign_cursor,
}

-- scores in hundred thousandths
abbrev machine : Machine ℕ
machine = record {
  of_nat = λ n. n;
  plus = λ a b. a + b;
  div = λ a b. a * 100000 / b;
  gt = λ a b. ltb b a;
  to_lowercase = λ s. to_ascii_lowercase s;
  tier_order = λ d. d;
  hit_order = λ d. d;
}

abbrev pub row : Text → Text → MessageRow
row mid list = record {
  message_id = mid;
  list = list;
  shard = codes "0";
  commit_oid = [];
  from_addr = none;
  from_name = none;
  subject_raw = none;
  subject_normalized = none;
  subject_tags = [];
  date_unix_ns = none;
  in_reply_to = none;
  references = [];
  tid = none;
  series_version = 0;
  series_index = none;
  series_total = none;
  is_cover_letter = false;
  has_patch = true;
  touched_files = [];
  touched_functions = [];
  files_changed = none;
  insertions = none;
  deletions = none;
  signed_off_by = [];
  reviewed_by = [];
  acked_by = [];
  tested_by = [];
  co_developed_by = [];
  reported_by = [];
  fixes = [];
  link = [];
  closes = [];
  cc_stable = [];
  suggested_by = [];
  helped_by = [];
  assisted_by = [];
  trailers_json = none;
  body_segment_id = 0;
  body_offset = 0;
  body_length = 0;
  body_sha256 = [];
  schema_version = 1;
}

abbrev pub patched : MessageRow
patched = row (codes "p") (codes "mm")

abbrev reader : Prose ℕ → Reader ℕ
reader prose = record {
  fetch_message = λ _. ok none;
  expand_citation = λ _ _. ok [];
  activity = λ _ _ _ _ _ _. ok [];
  eq = λ _ _ _ _ _ _. ok [];
  all_rows = λ _ _ _ _. ok [];
  patch_search = λ _ _ _. ok (patched ∷ []);
  prose_search_filtered = λ _ _ _. prose;
}

abbrev two_found : Prose ℕ
two_found = found ((row (codes "q") (codes "net"), 5) ∷ (patched, 3) ∷ [])

abbrev query : ParsedQuery
query = record no_query {
  free_text = codes "use-after-free" ∷ [];
  patch_substring = some (codes "kfree");
  list = some (codes "mm");
}

abbrev hit : RankedHit ℕ
hit = record {
  row = patched;
  fused_score = 3251;
  tier_provenance = codes "trigram" ∷ codes "bm25" ∷ [];
  is_exact_match = true;
}

fused : dispatch machine (reader two_found) query 5 ≡ ok (hit ∷ [], codes "hyphen-split" ∷ [])
unfolding dispatch run_metadata run_trigram run_bm25 post_filter rewrite_free_text_for_bm25
    rrf_merge text_eq sort_by join tier_results insert lookup push_new listed
fused = refl

any-IsOrder : {V : Type 0} → IsOrder {V = V} (λ d. d)
any-IsOrder = (λ d e. (λ i. i, λ i. i), λ d k. k)

dispatch-IsAsked_example :
    (length (hit ∷ []) ≤ 5)
    × IsKeyed message_id_of (hit ∷ [])
    × All (IsHit (Returned (reader two_found) query 5)) (hit ∷ [])
    × All (IsAsked machine query) (hit ∷ [])
dispatch-IsAsked_example =
    dispatch-IsAsked machine (reader two_found) query 5 any-IsOrder any-IsOrder (hit ∷ [])
      (codes "hyphen-split" ∷ []) fused

dispatch-fails_iff_example : (dispatch machine (reader (failed io)) query 5 ≡ err io) ↔ (
    (run_metadata (reader (failed io)) query 5 ≡ err io)
    ⊎ ((meta : Option (List MessageRow)) × (run_metadata (reader (failed io)) query 5 ≡ ok meta)
        × ((run_trigram (reader (failed io)) query 5 ≡ err io)
            ⊎ ((trigram : Option (List MessageRow)) × (run_trigram (reader (failed io)) query 5
                  ≡ ok trigram)
                × ProseFails (reader (failed io)) query 5 io))))
dispatch-fails_iff_example = dispatch-fails_iff (reader (failed io)) query 5 machine io

abbrev from_numbers : Bytes → Option (CursorPayload ℕ)
from_numbers (a ∷ b ∷ s) = some (record { query_hash = a; last_seen_score = b; last_seen_mid = s })
from_numbers _ = none

-- a checksum in place of the tag
abbrev crypto : Crypto ℕ
crypto = record {
  to_json = λ p. some (p.query_hash ∷ p.last_seen_score ∷ p.last_seen_mid);
  from_json = from_numbers;
  hmac = λ secret body. (length secret + length body) ∷ codes "0123456789012345678901234567890";
  verify_slice = λ a b. text_eq a b;
  encode = λ s. s;
  decode = λ s. some s;
}

crypto-IsHmac : IsHmac crypto
crypto-IsHmac = record {
  length-hmac = λ secret body. refl;
  verify_slice_iff = λ a b. text_eq_iff a b;
}

abbrev payload : CursorPayload ℕ
payload = record { query_hash = 7; last_seen_score = 9; last_seen_mid = codes "m@x" }

abbrev token : Bytes
token = (7 ∷ 9 ∷ codes "m@x") ++ 11 ∷ codes "0123456789012345678901234567890"

signed_token : sign_cursor crypto (codes "secret") payload ≡ ok token
unfolding sign_cursor
signed_token = refl

verify_cursor_iff_example : (verify_cursor crypto (codes "secret") token ≡ ok payload) ↔ (
    (body : Bytes) × (crypto.decode token ≡ some (body ++ crypto.hmac (codes "secret") body))
    × (crypto.from_json body ≡ some payload))
verify_cursor_iff_example = verify_cursor_iff crypto crypto-IsHmac (codes "secret") token payload

verify_cursor-sign_cursor_example : verify_cursor crypto (codes "secret") token ≡ ok payload
verify_cursor-sign_cursor_example =
    verify_cursor-sign_cursor crypto crypto-IsHmac (codes "secret") token payload
      (λ body q. json body q) (λ raw. refl) signed_token
  where
    json :
        (body : Bytes) → crypto.to_json payload ≡ some body → crypto.from_json body ≡ some payload
    json body q = rw (← some-injective (7 ∷ 9 ∷ codes "m@x") body q) refl
