-- ===== src/Trigram/Defs.antt =====
-- Trigrams, the builder of a segment, and the search for a needle in a segment.
use kernel_lore_mcp.Base.{
  ℕ, ◌+◌, ◌*◌, ◌^◌, not, ◌&&◌, List, [], ◌∷◌, ◌++◌, if◌then◌else◌, ltb, ◌==◌, any, length, retain,
  take, get_elem?, Option, none, some, unwrap_or,
}
use kernel_lore_mcp.Error.{Result, ok, err, state, Done, ◌>>◌, ◌>>=◌}
use kernel_lore_mcp.Text.{Text}
use kernel_lore_mcp.Trigram.Numbers.{Bitmap, bitmap_insert, bitmap_has, sort_dedup}

abbrev pub Byte : Type 0
Byte = ℕ

abbrev pub trigram_confirm_limit : ℕ
trigram_confirm_limit = 4096

-- shifts and bitwise or, on bytes
unfoldable pub pack_trigram : Byte → Byte → Byte → ℕ
pack_trigram a b c = a * 65536 + b * 256 + c

-- the windows of three bytes, those with a byte from 128 on left out
unfoldable pub patch_trigrams : List Byte → List ℕ
patch_trigrams [] = []
patch_trigrams (a ∷ []) = []
patch_trigrams (a ∷ b ∷ []) = []
patch_trigrams (a ∷ b ∷ c ∷ r) =
    let rest = patch_trigrams (b ∷ c ∷ r) in
    if ltb a 128 && ltb b 128 && ltb c 128 then pack_trigram a b c ∷ rest else rest

-- `SegmentBuilder`. A finished segment holds the same: its files are the postings, by trigram, and
-- the message ids, by line.
pub record Segment : Type 0 where
  pub postings : ℕ → Option Bitmap
  pub docs : List Text

unfoldable pub empty_segment : Segment
empty_segment = record { postings = λ t. none; docs = [] }

unfoldable pub insert_all : List ℕ → ℕ → (ℕ → Option Bitmap) → ℕ → Option Bitmap
insert_all [] docid p = p
insert_all (tri ∷ ts) docid p =
    insert_all ts docid
      (λ t. if t == tri then some (bitmap_insert docid (unwrap_or [] (p t))) else p t)

unfoldable pub add : Text → List Byte → Segment → Result Segment
add message_id patch s =
    let docid = length s.docs in
    if any (λ c. c == 10) message_id
    then err state
    else if not (ltb docid (2 ^ 32))
    then err state
    else ok (record {
      postings = insert_all (patch_trigrams patch) docid s.postings;
      docs = s.docs ++ message_id ∷ [];
    })

-- `acc &= b`, and the ways out of the loop: no posting, and nothing left
abbrev pub narrow : Bitmap → Option Bitmap → (Bitmap → Result Bitmap) → Result Bitmap
narrow acc none go_on = ok []
narrow acc (some b) go_on =
    let both = retain (λ d. bitmap_has d b) acc in if length both == 0 then ok both else go_on both

-- the loop over the other trigrams; `check` is the outcome of the deadline check before each
unfoldable pub intersect : (ℕ → Done) → Segment → List ℕ → Bitmap → Result Bitmap
intersect check s [] acc = ok acc
intersect check s (tri ∷ ts) acc =
    check tri >> narrow acc (s.postings tri) (λ both. intersect check s ts both)

abbrev pub from_first : Option Bitmap → (Bitmap → Result Bitmap) → Result Bitmap
from_first none go_on = ok []
from_first (some acc) go_on = go_on acc

abbrev pub intersect_all : (ℕ → Done) → Segment → List ℕ → Result Bitmap
intersect_all check s [] = ok []
intersect_all check s (first ∷ ts) = from_first (s.postings first) (λ acc. intersect check s ts acc)

unfoldable pub candidate_docids : (ℕ → Done) → Segment → List Byte → Result Bitmap
unfolding intersect
candidate_docids check s needle = intersect_all check s (sort_dedup (patch_trigrams needle))

abbrev pub keep : Option Text → List Text → List Text
keep none rest = rest
keep (some m) rest = m ∷ rest

-- `filter_map` over `docs.get`
unfoldable pub messages : List Text → Bitmap → List Text
messages docs [] = []
messages docs (d ∷ ds) = keep (get_elem? docs d) (messages docs ds)

unfoldable pub candidates_for_substring : (ℕ → Done) → Segment → List Byte → Result (List Text)
candidates_for_substring check s needle =
    if ltb (length needle) 3
    then ok s.docs
    else (candidate_docids check s needle >>= λ bitmap.
        ok (messages s.docs (take trigram_confirm_limit bitmap)))
