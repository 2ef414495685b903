-- ===== src/Store/RoundTrip.antt =====
-- An append that returns a pointer can be read back through it.
use kernel_lore_mcp.Base.{
  ◌+◌, ◌≤◌, ◌<◌, ◌≡◌, refl, sym, ◌∙◌, inl, inr, [], ◌++◌, length, length-append, take_length,
  drop-append_length, leb, ltb, ◌==◌, arith, Option, none, some, Bool-cases, leb→le, le→leb,
}
use kernel_lore_mcp.Text.Decimal.{u32_bound}
use kernel_lore_mcp.Error.{Result, ok, err}
use kernel_lore_mcp.Dict.{Dict, lookup, insert, lookup-insert_self}
use kernel_lore_mcp.Store.Names.{segment_name}
use kernel_lore_mcp.Store.Defs.{
  Bytes, Codec, IsCodec, StoreOffset, Appended, Store, segment_roll_bytes, contents, read_exact,
  read_at, read, create_segment, roll, write_end, write_frame, encode_and_write, append_after_roll,
  append, open_active_segment,
}

-- The writer's position is the length of the file that it has open, and below the roll size that
-- file is the one of the current segment.
pub record IsValid (s : Store) : Type 0 where
  pub bytes : Bytes
  pub present : lookup s.file s.segments ≡ some bytes
  pub measured : length bytes ≡ s.position
  pub named : s.position < segment_roll_bytes → s.file ≡ segment_name s.segment_id

module _ (z : Codec) (laws : IsCodec z) (body : Bytes) where
  -- Behind `old`, the new frame is what both ways of reading find.
  read_frame :
      (s : Store) (p : StoreOffset) (old frame : Bytes)
      → z.encode_all body ≡ ok frame
      → p.offset ≡ length old
      → p.length ≡ length frame
      → lookup (segment_name p.segment_id) s.segments ≡ some (old ++ frame)
      → (read z p s ≡ ok body) × (read_at z p.segment_id p.offset s ≡ ok body)
  read_frame s p old frame e o l h = (whole, first)
    where
      first : read_at z p.segment_id p.offset s ≡ ok body
      first =
          unfold read_at in
          rw (h, o, drop-append_length old frame) (laws.decode_frame-encode_all body frame e)

      exact : read_exact (length frame) frame ≡ ok frame
      exact = rw (le→leb (length frame) (length frame) (omega arith), take_length frame)

      whole : read z p s ≡ ok body
      whole = elim (Bool-cases (p.length == 0)) [
        | inl t ↦ unfold read in rw t first
        | inr t ↦
            unfold read in
            rw (t, h, o, drop-append_length old frame, l, exact)
              (laws.decode_all-encode_all body frame e)
      ]

  abbrev pub ReadsBack : Result Appended × Store → Type 0
  ReadsBack (err e, s) = IsValid s
  ReadsBack (ok a, s) =
      (read z a.ptr s ≡ ok body)
      × (read_at z a.ptr.segment_id a.ptr.offset s ≡ ok body)
      × (a.body_length ≡ length body)
      × (a.body_sha256 ≡ z.sha256 body)
      × IsValid s

  write_frame-ReadsBack :
      (s : Store) (frame old : Bytes)
      → z.encode_all body ≡ ok frame
      → lookup s.file s.segments ≡ some old
      → length old ≡ s.position
      → s.file ≡ segment_name s.segment_id
      → ReadsBack (write_frame z none body frame s)
  unfolding write_frame
  write_frame-ReadsBack s frame old e h m f =
      let s' : Store = record (write_end frame s) { position = s.position + length frame } in
      let there : lookup s.file s'.segments ≡ some (old ++ frame) =
        lookup-insert_self s.file (contents s.file s.segments ++ frame) s.segments ∙ rw h in
      let back =
        read_frame s'
          (record { segment_id = s.segment_id; offset = s.position; length = length frame }) old
          frame e (sym m) refl (rw (← f) there) in
      (
        back.0,
        back.1,
        refl,
        refl,
        record {
          bytes = old ++ frame;
          present = there;
          measured = omega (arith, m, length-append old frame);
          named = λ _. f;
        },
      )

  encode_and_write-ReadsBack :
      (s : Store) (old : Bytes) (r : Result Bytes)
      → z.encode_all body ≡ r
      → lookup s.file s.segments ≡ some old
      → length old ≡ s.position
      → s.file ≡ segment_name s.segment_id
      → ReadsBack (encode_and_write z none body r s)
  unfolding encode_and_write
  encode_and_write-ReadsBack s old (err x) e h m f = record {
    bytes = old;
    present = h;
    measured = m;
    named = λ _. f;
  }
  encode_and_write-ReadsBack s old (ok frame) e h m f = write_frame-ReadsBack s frame old e h m f

  create_segment-ReadsBack :
      (s : Store) (o : Option Bytes)
      → IsValid s
      → segment_roll_bytes ≤ s.position
      → ReadsBack (append_after_roll z none body (create_segment s o))
  unfolding create_segment append_after_roll
  create_segment-ReadsBack s (some b) v big = v
  create_segment-ReadsBack s none v big =
      let name = segment_name s.segment_id in
      encode_and_write-ReadsBack
        (record s { segments = insert name [] s.segments; file = name; position = 0 }) []
        (z.encode_all body) refl (lookup-insert_self name [] s.segments) refl refl

  roll-ReadsBack :
      (s : Store)
      → IsValid s
      → segment_roll_bytes ≤ s.position
      → ReadsBack (append_after_roll z none body (roll s))
  unfolding roll
  roll-ReadsBack s v big = elim (Bool-cases (ltb (s.segment_id + 1) u32_bound)) [
    | inl e ↦
        let s' : Store = record s { segment_id = s.segment_id + 1 } in
        let v' : IsValid s' = record {
          bytes = v.bytes;
          present = v.present;
          measured = v.measured;
          named = λ h. absurd (omega arith);
        } in
        rw e
          (create_segment-ReadsBack s' (lookup (segment_name (s.segment_id + 1)) s.segments) v' big)
    | inr e ↦ rw e (unfold append_after_roll in v)
  ]

  -- From a valid store, an append whose write is not torn leaves a valid store, and if it returns a
  -- pointer, both ways of reading the pointer give the body back, and its length and hash are those
  -- of the body.
  pub append-ReadsBack : (s : Store) → IsValid s → ReadsBack (append z none body s)
  unfolding append
  append-ReadsBack s v = elim (Bool-cases (leb segment_roll_bytes s.position)) [
    | inl e ↦ rw e (roll-ReadsBack s v (leb→le segment_roll_bytes s.position e))
    | inr e ↦ rw e (
        unfold append_after_roll in
        encode_and_write-ReadsBack s v.bytes (z.encode_all body) refl v.present v.measured
          (v.named (ground arith)))
  ]

-- Opening a directory gives a valid store, whatever segments it holds.
pub open_active_segment-IsValid : (segments : Dict Bytes) → IsValid (open_active_segment segments)
unfolding open_active_segment
open_active_segment-IsValid segments =
    let name = (open_active_segment segments).file in
    record {
      bytes = contents name segments;
      present = lookup-insert_self name (contents name segments) segments;
      measured = refl;
      named = λ _. refl;
    }
