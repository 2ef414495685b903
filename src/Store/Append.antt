-- ===== src/Store/Append.antt =====
-- The store is append-only, and every append can be read back.
use kernel_lore_mcp.Base.{
  ℕ, ◌+◌, ◌≡◌, refl, ap, ◌∙◌, inl, inr, [], ◌++◌, append-nil, append_assoc, take, leb, ltb, Option,
  none, some, Bool-cases,
}
use kernel_lore_mcp.Text.{Text, text_eq-cases}
use kernel_lore_mcp.Text.Decimal.{u32_bound}
use kernel_lore_mcp.Error.{Result, ok, err}
use kernel_lore_mcp.Dict.{Dict, lookup, lookup-insert}
use kernel_lore_mcp.Store.Names.{segment_name}
use kernel_lore_mcp.Store.Defs.{
  Bytes, Codec, Store, segment_roll_bytes, create_segment, roll, write_end, write_frame,
  encode_and_write, append_after_roll, append,
}

-- Every file of `m` is there in `n`, with bytes behind it or none.
abbrev pub Extends : Dict Bytes → Dict Bytes → Type 0
Extends m n =
    (name : Text) (b : Bytes)
    → lookup name m ≡ some b
    → (more : Bytes) × (lookup name n ≡ some (b ++ more))

Extends-refl : (m : Dict Bytes) → Extends m m
Extends-refl m name b h = ([], rw (append-nil b) h)

Extends-trans : (m n o : Dict Bytes) → Extends m n → Extends n o → Extends m o
Extends-trans m n o f g name b h =
    let (x, p) = f name b h in
    let (y, q) = g name (b ++ x) p in (x ++ y, q ∙ ap (λ t. some t) (append_assoc b x y))

Extends-write_end : (bytes : Bytes) (s : Store) → Extends s.segments (write_end bytes s).segments
Extends-write_end bytes s name b h = elim (text_eq-cases s.file name) [
  | inl (e, q) ↦ (bytes, rw (lookup-insert, e) (rw q (rw h)))
  | inr (e, _) ↦ ([], rw (lookup-insert, e, append-nil b) h)
]

Extends-create_segment :
    (s : Store) (o : Option Bytes)
    → lookup (segment_name s.segment_id) s.segments ≡ o
    → Extends s.segments (create_segment s o).1.segments
unfolding create_segment
Extends-create_segment s (some b) e = Extends-refl s.segments
Extends-create_segment s none e = λ name b h.
    elim (text_eq-cases (segment_name s.segment_id) name) [
      | inl (_, q) ↦ cc
      | inr (n, _) ↦ ([], rw (lookup-insert, n, append-nil b) h)
    ]

Extends-roll : (s : Store) → Extends s.segments (roll s).1.segments
unfolding roll
Extends-roll s = elim (Bool-cases (ltb (s.segment_id + 1) u32_bound)) [
  | inl e ↦ rw e (
      Extends-create_segment (record s { segment_id = s.segment_id + 1 })
        (lookup (segment_name (s.segment_id + 1)) s.segments) refl)
  | inr e ↦ rw e (Extends-refl s.segments)
]

module _ (z : Codec) (torn : Option ℕ) (body : Bytes) where
  Extends-write_frame :
      (frame : Bytes) (s : Store) → Extends s.segments (write_frame z torn body frame s).1.segments
  Extends-write_frame frame s = go torn
    where
      go : (t : Option ℕ) → Extends s.segments (write_frame z t body frame s).1.segments
      go (some k) = unfold write_frame in Extends-write_end (take k frame) s
      go none = unfold write_frame in Extends-write_end frame s

  Extends-encode_and_write :
      (r : Result Bytes) (s : Store)
      → Extends s.segments (encode_and_write z torn body r s).1.segments
  unfolding encode_and_write
  Extends-encode_and_write (err e) s = Extends-refl s.segments
  Extends-encode_and_write (ok frame) s = Extends-write_frame frame s

  Extends-append_after_roll :
      (m : Dict Bytes) (r : Result Store × Store)
      → Extends m r.1.segments
      → Extends m (append_after_roll z torn body r).1.segments
  unfolding append_after_roll
  Extends-append_after_roll m (err e, s) h = h
  Extends-append_after_roll m (ok _, s) h =
      Extends-trans m s.segments _ h (Extends-encode_and_write (z.encode_all body) s)

  -- An append, also one that fails or is torn, only adds files and bytes at the end of files.
  pub append-Extends : (s : Store) → Extends s.segments (append z torn body s).1.segments
  unfolding append
  append-Extends s = elim (Bool-cases (leb segment_roll_bytes s.position)) [
    | inl e ↦ rw e (Extends-append_after_roll s.segments (roll s) (Extends-roll s))
    | inr e ↦ rw e (Extends-append_after_roll s.segments (ok s, s) (Extends-refl s.segments))
  ]
