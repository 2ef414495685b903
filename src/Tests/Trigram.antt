-- ===== src/Tests/Trigram.antt =====
-- src/trigram.rs on two patches, of which one has the needle.
use kernel_lore_mcp.Base.{ℕ, ◌≡◌, ◌≢◌, refl, List, [], ◌∷◌, ◌++◌, length, arith, ◌↔◌, IsIn}
use kernel_lore_mcp.Error.{ok, Done}
use kernel_lore_mcp.Text.{Text, codes}
use kernel_lore_mcp.Trigram.Numbers.{bitmap_insert, bitmap_has, sort_dedup}
use kernel_lore_mcp.Trigram.{
  Segment, pack_trigram, patch_trigrams, empty_segment, insert_all, add, intersect,
  candidate_docids, candidates_for_substring,
}
use kernel_lore_mcp.Trigram.Index.{Document, add_all}
use kernel_lore_mcp.Trigram.Search.{
  HasTrigrams, candidate_docids_iff, candidates_for_substring_complete,
}

abbrev documents : List Document
documents = (codes "m1", codes "xabcdx") ∷ (codes "m2", codes "abxbcd") ∷ []

abbrev needle : Text
needle = codes "abcd"

abbrev passes : ℕ → Done
passes t = ok tt

abbrev step : Segment → Document → Segment
step s e = record {
  postings = insert_all (patch_trigrams e.1) (length s.docs) s.postings;
  docs = s.docs ++ e.0 ∷ [];
}

segment : Segment
segment = step (step empty_segment (codes "m1", codes "xabcdx")) (codes "m2", codes "abxbcd")

built : add_all documents empty_segment ≡ ok segment
unfolding add_all add empty_segment segment
built = refl

proposed : candidate_docids passes segment needle ≡ ok (0 ∷ [])
unfolding candidate_docids intersect segment empty_segment insert_all patch_trigrams pack_trigram
    bitmap_insert bitmap_has sort_dedup
proposed = refl

has_trigram : patch_trigrams needle ≢ []
unfolding patch_trigrams
has_trigram e = absurd (cc)

candidate_docids_iff_example :
    IsIn {A = ℕ} 0 (0 ∷ []) ↔ ((patch_trigrams needle ≢ []) × HasTrigrams documents needle 0)
candidate_docids_iff_example =
    candidate_docids_iff passes documents segment needle (0 ∷ []) 0 built proposed

candidates_for_substring_complete_example :
    (r : List Text) × (candidates_for_substring passes segment needle ≡ ok r) × IsIn (codes "m1") r
candidates_for_substring_complete_example =
    candidates_for_substring_complete passes documents segment (codes "x") needle (codes "x")
      (0 ∷ []) 0 (codes "m1") built refl has_trigram proposed (omega arith)
