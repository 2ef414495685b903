-- ===== src/Tests/Store.antt =====
-- src/store.rs on concrete segments, with a codec that writes the length in front of the bytes.
use kernel_lore_mcp.Base.{
  ℕ, ◌≡◌, refl, List, [], ◌∷◌, ◌++◌, length, take, take_length, take-append_le, length-append, leb,
  leb→le, le→leb, true, Bool-cases, inl, inr, if◌then◌else◌, arith, Option, none, some, All,
}
use kernel_lore_mcp.Text.{codes, text_eq, strip_prefix, strip_suffix}
use kernel_lore_mcp.Text.Decimal.{to_string, parse_unsigned}
use kernel_lore_mcp.Error.{Result, ok, err, io}
use kernel_lore_mcp.Dict.{lookup, insert}
use kernel_lore_mcp.Store.{
  Bytes, Codec, IsCodec, StoreOffset, Appended, Store, append, read, read_at, open_active_segment,
}
use kernel_lore_mcp.Store.Names.{segment_name, pad, parse_segment_id, parse_segment_id-segment_name}
use kernel_lore_mcp.Store.RoundTrip.{ReadsBack, append-ReadsBack, open_active_segment-IsValid}
use kernel_lore_mcp.Store.Reading.{read-append_later}
use kernel_lore_mcp.Store.Runs.{whole, append_all, append_all_then_read}
use kernel_lore_mcp.Store.Torn.{read-append_after_torn}

-- a frame is the length and the bytes
unfoldable pub decode : Bytes → Result Bytes
decode [] = err io
decode (n ∷ r) = if leb n (length r) then ok (take n r) else err io

abbrev pub counting : Codec
counting = record {
  encode_all = λ b. ok (length b ∷ b);
  decode_all = decode;
  decode_frame = decode;
  sha256 = λ b. b;
}

decode_encoded : (b f : Bytes) → ◌≡◌ {A = Result Bytes} (ok (length b ∷ b)) (ok f) → decode f ≡ ok b
decode_encoded b [] h = cc
decode_encoded b (n ∷ r) h =
    let en : n ≡ length b = cc in
    let er : r ≡ b = cc in
    rw (en, er) (unfold decode in rw (le→leb (length b) (length b) (omega arith), take_length b))

decode-append : (f r b : Bytes) → decode f ≡ ok b → decode (f ++ r) ≡ ok b
unfolding decode
decode-append [] r b h = cc
decode-append (n ∷ f) r b h = elim (Bool-cases (leb n (length f))) [
  | inl e ↦
      let longer : leb n (length (f ++ r)) ≡ true =
        le→leb n (length (f ++ r)) (omega (arith, leb→le n (length f) e, length-append f r)) in
      rw (longer, take-append_le n f r (leb→le n (length f) e)) (rw e at h)
  | inr e ↦ absurd (cc (rw e at h))
]

pub counting-IsCodec : IsCodec counting
counting-IsCodec = record {
  decode_all-encode_all = decode_encoded;
  decode_frame-encode_all = decode_encoded;
  decode_frame-append = decode-append;
}

-- a directory with one segment of five bytes, and one file that is no segment
abbrev directory : List (List ℕ × Bytes)
directory = insert (segment_name 3) (1 ∷ 9 ∷ 2 ∷ 8 ∷ 8 ∷ []) (insert (codes "notes") (7 ∷ []) [])

abbrev opened : Store
opened = open_active_segment directory

abbrev first_body : Bytes
first_body = 5 ∷ 6 ∷ []

name_of_seven : segment_name 7 ≡ codes "segment-000007.zst"
unfolding segment_name pad to_string
name_of_seven = refl

opened_at_end : (opened.segment_id ≡ 3) × (opened.position ≡ 5)
unfolding open_active_segment parse_segment_id segment_name pad to_string insert lookup text_eq
    parse_unsigned strip_prefix strip_suffix
opened_at_end = (refl, refl)

parse_segment_id-segment_name_example : parse_segment_id (segment_name 12) ≡ some 12
parse_segment_id-segment_name_example = parse_segment_id-segment_name 12 (omega arith)

append-ReadsBack_example :
    ReadsBack counting counting-IsCodec first_body (append counting none first_body opened)
append-ReadsBack_example =
    append-ReadsBack counting counting-IsCodec first_body opened
      (open_active_segment-IsValid directory)

-- the pointer of the frame at offset 2 of segment 3
abbrev second : StoreOffset
second = record { segment_id = 3; offset = 2; length = 3 }

second_reads : read counting second opened ≡ ok (8 ∷ 8 ∷ [])
unfolding read decode open_active_segment parse_segment_id segment_name pad to_string insert lookup
    text_eq parse_unsigned strip_prefix strip_suffix
second_reads = refl

read-append_later_example :
    read counting second (append counting (some 1) first_body opened).1 ≡ ok (8 ∷ 8 ∷ [])
read-append_later_example =
    read-append_later counting counting-IsCodec opened second (8 ∷ 8 ∷ []) (some 1) first_body
      second_reads

abbrev bodies : List Bytes
bodies = first_body ∷ [] ∷ []

-- the first of them tears
abbrev further : List (Bytes × Option ℕ)
further = (4 ∷ [], some 1) ∷ (first_body, none) ∷ []

append_all_then_read_example :
    All
      (λ e.
        read counting e.1
          (append_all counting further (append_all counting (whole bodies) opened).1).1
        ≡ ok e.0)
      (append_all counting (whole bodies) opened).0
append_all_then_read_example =
    append_all_then_read counting counting-IsCodec directory bodies further

read-append_after_torn_example :
    (a : Appended) × ((append counting none
        (4 ∷ [])
        (append counting (some 2) first_body opened).1).0
      ≡ ok a)
    × (a.ptr.offset ≡ opened.position)
    × (read_at counting a.ptr.segment_id a.ptr.offset
          (append counting none (4 ∷ []) (append counting (some 2) first_body opened).1).1
        ≡ counting.decode_frame (take 2 (2 ∷ 5 ∷ 6 ∷ []) ++ (1 ∷ 4 ∷ [])))
    × (read counting a.ptr
          (append counting none (4 ∷ []) (append counting (some 2) first_body opened).1).1
        ≡ counting.decode_all (take 2 (take 2 (2 ∷ 5 ∷ 6 ∷ []) ++ (1 ∷ 4 ∷ []))))
read-append_after_torn_example =
    read-append_after_torn counting first_body (4 ∷ []) (2 ∷ 5 ∷ 6 ∷ []) (1 ∷ 4 ∷ []) 2 opened
      (open_active_segment-IsValid directory) (rw opened_at_end.1 (omega arith)) refl refl
      (omega arith)
