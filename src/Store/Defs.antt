-- ===== src/Store/Defs.antt =====
-- The segment files of one list and their writer. A segment is its bytes. zstd and sha256 are
-- parameters, `Codec`; a `Fault` is a write that stops after some of its bytes.
use kernel_lore_mcp.Base.{
  ℕ, ◌+◌, ◌≡◌, List, [], ◌∷◌, ◌++◌, length, take, drop, leb, ltb, ◌==◌, if◌then◌else◌, Option, none,
  some, unwrap_or,
}
use kernel_lore_mcp.Text.{Text, codes, contains}
use kernel_lore_mcp.Text.Decimal.{u32_bound}
use kernel_lore_mcp.Error.{Result, ok, err, io, state, ok_or, ◌>>=◌}
use kernel_lore_mcp.Store.Names.{segment_name, parse_segment_id}
use kernel_lore_mcp.Dict.{Dict, lookup, insert}

abbrev pub Bytes : Type 0
Bytes = List ℕ

-- `SEGMENT_ROLL_BYTES`
abbrev pub segment_roll_bytes : ℕ
segment_roll_bytes = 1073741824

-- zstd and sha256 as the store calls them.
pub record Codec : Type 0 where
  pub encode_all : Bytes → Result Bytes
  pub decode_all : Bytes → Result Bytes
  pub decode_frame : Bytes → Result Bytes
  pub sha256 : Bytes → Bytes

-- What the store relies on: a frame decodes to what was encoded, whole or as the first frame of a
-- stream, and the decoder of one frame does not read past it.
pub record IsCodec (z : Codec) : Type 0 where
  pub decode_all-encode_all : (b f : Bytes) → z.encode_all b ≡ ok f → z.decode_all f ≡ ok b
  pub decode_frame-encode_all : (b f : Bytes) → z.encode_all b ≡ ok f → z.decode_frame f ≡ ok b
  pub decode_frame-append :
      (f r b : Bytes) → z.decode_frame f ≡ ok b → z.decode_frame (f ++ r) ≡ ok b

pub record StoreOffset : Type 0 where
  pub segment_id : ℕ
  pub offset : ℕ
  pub length : ℕ

pub record Appended : Type 0 where
  pub ptr : StoreOffset
  pub body_sha256 : Bytes
  pub body_length : ℕ

-- `file` is the name of the segment that the writer has open for appending.
pub record Store : Type 0 where
  pub segments : Dict Bytes
  pub segment_id : ℕ
  pub file : Text
  pub position : ℕ

-- the highest id among the names of a directory
abbrev max_id : Option ℕ → ℕ → ℕ
max_id none id = id
max_id (some h) id = if ltb h id then id else h

unfoldable pub highest_id : Dict Bytes → Option ℕ → Option ℕ
highest_id [] highest = highest
highest_id ((name, _) ∷ rest) highest =
    highest_id rest
      (elim (parse_segment_id name) [ none ↦ highest | some id ↦ some (max_id highest id) ])

abbrev pub contents : Text → Dict Bytes → Bytes
contents name segments = unwrap_or [] (lookup name segments)

-- `SegmentWriter::open`: the highest segment is opened for appending, or created
unfoldable pub open_active_segment : Dict Bytes → Store
unfolding highest_id
open_active_segment segments =
    let id = unwrap_or 0 (highest_id segments none) in
    let name = segment_name id in
    record {
      segments = insert name (contents name segments) segments;
      segment_id = id;
      file = name;
      position = length (contents name segments);
    }

-- `Store::open`
unfoldable pub open_store : Text → Dict Bytes → Result Store
open_store list segments =
    if length list == 0
    then err state
    else if contains (codes "/") list
    then err state
    else if contains (codes "..") list
    then err state
    else ok (open_active_segment segments)

-- `create_new` refuses a name that is there; the id has moved on by then
unfoldable pub create_segment : Store → Option Bytes → Result Store × Store
create_segment s (some _) = (err io, s)
create_segment s none =
    let name = segment_name s.segment_id in
    let s' = record s { segments = insert name [] s.segments; file = name; position = 0 } in
    (ok s', s')

unfoldable pub roll : Store → Result Store × Store
unfolding create_segment
roll s =
    if ltb (s.segment_id + 1) u32_bound
    then (let s' = record s { segment_id = s.segment_id + 1 } in
        create_segment s' (lookup (segment_name s'.segment_id) s'.segments))
    else (err state, s)

-- `write_all` on a file that is open for appending: the bytes go to its end
abbrev pub write_end : Bytes → Store → Store
write_end bytes s = record s {
  segments = insert s.file (contents s.file s.segments ++ bytes) s.segments;
}

-- A write that is torn has put only its first bytes in the file, and `position` stays.
unfoldable pub write_frame : Codec → Option ℕ → Bytes → Bytes → Store → Result Appended × Store
write_frame z (some k) body frame s = (err io, write_end (take k frame) s)
write_frame z none body frame s = (
  ok (record {
    ptr = record { segment_id = s.segment_id; offset = s.position; length = length frame };
    body_sha256 = z.sha256 body;
    body_length = length body;
  }),
  record (write_end frame s) { position = s.position + length frame },
)

unfoldable pub encode_and_write :
    Codec → Option ℕ → Bytes → Result Bytes → Store → Result Appended × Store
unfolding write_frame
encode_and_write z torn body (err e) s = (err e, s)
encode_and_write z torn body (ok frame) s = write_frame z torn body frame s

unfoldable pub append_after_roll :
    Codec → Option ℕ → Bytes → Result Store × Store → Result Appended × Store
unfolding encode_and_write
append_after_roll z torn body (err e, s) = (err e, s)
append_after_roll z torn body (ok _, s) = encode_and_write z torn body (z.encode_all body) s

-- `Store::append` under the lock
unfoldable pub append : Codec → Option ℕ → Bytes → Store → Result Appended × Store
append z torn body s =
    append_after_roll z torn body (if leb segment_roll_bytes s.position then roll s else (ok s, s))

-- `File::open`
abbrev pub open_segment : ℕ → Store → Result Bytes
open_segment id s = ok_or io (lookup (segment_name id) s.segments)

-- `read_exact` of `n` bytes
abbrev pub read_exact : ℕ → Bytes → Result Bytes
read_exact n b = if leb n (length b) then ok (take n b) else err io

unfoldable pub read_at : Codec → ℕ → ℕ → Store → Result Bytes
read_at z id offset s = do b ← open_segment id s; z.decode_frame (drop offset b)

unfoldable pub read : Codec → StoreOffset → Store → Result Bytes
unfolding read_at
read z p s = if p.length == 0 then read_at z p.segment_id p.offset s else (do
  b ← open_segment p.segment_id s
  framed ← read_exact p.length (drop p.offset b)
  z.decode_all framed)
