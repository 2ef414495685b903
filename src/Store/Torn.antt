-- ===== src/Store/Torn.antt =====
-- What the writer does after a write that stops half-way: `position` is not moved, and the file is
-- open for appending, so the next frame lands behind the torn bytes while its pointer says otherwise.
use kernel_lore_mcp.Base.{
  ℕ, ◌+◌, ◌<◌, ◌≡◌, refl, sym, ap, ◌∙◌, false, ◌++◌, append_assoc, length, take, drop-append_length,
  leb, le→leb, ◌==◌, true, length-append, arith, Option, none, some,
}
use kernel_lore_mcp.Error.{Result, ok}
use kernel_lore_mcp.Dict.{lookup, lookup-insert_self}
use kernel_lore_mcp.Store.Defs.{
  Bytes, Codec, Appended, Store, segment_roll_bytes, contents, read_at, read, write_end,
  write_frame, encode_and_write, append_after_roll, append,
}
use kernel_lore_mcp.Store.Names.{segment_name}
use kernel_lore_mcp.Store.RoundTrip.{IsValid}

-- Below the roll size, an append is one write to the open file.
append_small :
    (z : Codec) (torn : Option ℕ) (body frame : Bytes) (s : Store)
    → s.position < segment_roll_bytes
    → z.encode_all body ≡ ok frame
    → append z torn body s ≡ write_frame z torn body frame s
unfolding append append_after_roll encode_and_write
append_small z torn body frame s h e =
    let small : leb segment_roll_bytes s.position ≡ false = ground arith in rw (small, e)

-- After a write torn at `k` bytes, the next append returns the position before the torn write. At its
-- offset `read_at` decodes the torn bytes with the new frame behind them, and `read` of its pointer
-- decodes as many of those bytes as the new frame has. The store is valid and below the roll size,
-- both bodies compress, and the second frame is not empty.
pub read-append_after_torn :
    (z : Codec) (first body frame1 frame2 : Bytes) (k : ℕ) (s : Store)
    → IsValid s
    → s.position < segment_roll_bytes
    → z.encode_all first ≡ ok frame1
    → z.encode_all body ≡ ok frame2
    → 0 < length frame2
    → (a : Appended) × ((append z none body (append z (some k) first s).1).0 ≡ ok a)
      × (a.ptr.offset ≡ s.position)
      × (read_at z a.ptr.segment_id a.ptr.offset
            (append z none body (append z (some k) first s).1).1
          ≡ z.decode_frame (take k frame1 ++ frame2))
      × (read z a.ptr (append z none body (append z (some k) first s).1).1
          ≡ z.decode_all (take (length frame2) (take k frame1 ++ frame2)))
read-append_after_torn z first body frame1 frame2 k s v small e1 e2 filled =
    let s1 : Store = write_end (take k frame1) s in
    let s2 : Store = record (write_end frame2 s1) { position = s.position + length frame2 } in
    let torn : append z (some k) first s ≡ write_frame z (some k) first frame1 s =
      append_small z (some k) first frame1 s small e1 in
    let one : lookup s.file s1.segments ≡ some (v.bytes ++ take k frame1) =
      lookup-insert_self s.file (contents s.file s.segments ++ take k frame1) s.segments
      ∙ rw v.present in
    let two : lookup s.file s2.segments ≡ some (v.bytes ++ (take k frame1 ++ frame2)) =
      lookup-insert_self s.file (contents s.file s1.segments ++ frame2) s1.segments
      ∙ rw (one, append_assoc v.bytes (take k frame1) frame2) in
    let there : lookup (segment_name s.segment_id) s2.segments
        ≡ some (v.bytes ++ (take k frame1 ++ frame2)) =
      rw (← v.named small) two in
    let after : append z none body s1 ≡ write_frame z none body frame2 s1 =
      append_small z none body frame2 s1 small e2 in
    let nonzero : (length frame2 == 0) ≡ false = ground (arith, filled) in
    let enough : leb (length frame2) (length (take k frame1 ++ frame2)) ≡ true =
      le→leb (length frame2) (length (take k frame1 ++ frame2))
        (omega (arith, length-append (take k frame1) frame2)) in
    let a : Appended = record {
      ptr = record { segment_id = s.segment_id; offset = s.position; length = length frame2 };
      body_sha256 = z.sha256 body;
      body_length = length body;
    } in
    let result : append z none body (append z (some k) first s).1 ≡ (ok a, s2) =
      rw torn (unfold write_frame in rw after (unfold write_frame in refl)) in
    (
      a,
      ap (λ (r : Result Appended × Store). r.0) result,
      refl,
      rw result (
          unfold read_at in
          rw (there, sym v.measured, drop-append_length v.bytes (take k frame1 ++ frame2))),
      rw result (
          unfold read in
          rw (nonzero, there, sym v.measured, drop-append_length v.bytes (take k frame1 ++ frame2))
            (rw enough refl)),
    )
