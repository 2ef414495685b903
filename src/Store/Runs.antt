-- ===== src/Store/Runs.antt =====
-- A run of appends, each of which may succeed, fail or tear.
use kernel_lore_mcp.Base.{ℕ, ◌≡◌, List, [], ◌∷◌, map, Option, none, All}
use kernel_lore_mcp.Error.{Result, ok, err}
use kernel_lore_mcp.Dict.{Dict}
use kernel_lore_mcp.Store.Defs.{
  Bytes, Codec, IsCodec, StoreOffset, Appended, Store, append, read, open_active_segment,
}
use kernel_lore_mcp.Store.Reading.{read-append_later}
use kernel_lore_mcp.Store.RoundTrip.{
  IsValid, ReadsBack, append-ReadsBack, open_active_segment-IsValid,
}

-- the bodies that were stored, with their pointers
abbrev pub stored :
    Bytes → Result Appended → List (Bytes × StoreOffset) → List (Bytes × StoreOffset)
stored body (ok a) rest = (body, a.ptr) ∷ rest
stored body (err e) rest = rest

-- each body with how much of its frame a write that tears leaves
pub append_all : Codec → List (Bytes × Option ℕ) → Store → List (Bytes × StoreOffset) × Store
append_all z [] s = ([], s)
append_all z ((body, torn) ∷ writes) s =
    let (r, s') = append z torn body s in
    let (rest, last) = append_all z writes s' in (stored body r rest, last)

-- writes that do not tear
abbrev pub whole : List Bytes → List (Bytes × Option ℕ)
whole bodies = map (λ b. (b, none)) bodies

module _ (z : Codec) (laws : IsCodec z) where
  append_all-keeps :
      (writes : List (Bytes × Option ℕ)) (s : Store) (p : StoreOffset) (b : Bytes)
      → read z p s ≡ ok b
      → read z p (append_all z writes s).1 ≡ ok b
  unfolding append_all
  append_all-keeps [] s p b h = h
  append_all-keeps ((body, torn) ∷ writes) s p b h =
      append_all-keeps writes (append z torn body s).1 p b
        (read-append_later z laws s p b torn body h)

  module _ (later : List (Bytes × Option ℕ)) where
    -- the store when the run and what follows it are over
    abbrev last : List Bytes → Store → Store
    last bodies s = (append_all z later (append_all z (whole bodies) s).1).1

    append_all-reads :
        (bodies : List Bytes) (s : Store)
        → IsValid s
        → All (λ e. read z e.1 (last bodies s) ≡ ok e.0) (append_all z (whole bodies) s).0
    unfolding append_all
    append_all-reads [] s v = tt
    append_all-reads (body ∷ bodies) s v =
        go (append z none body s) (append-ReadsBack z laws body s v)
          (λ s' v'. append_all-reads bodies s' v')
      where
        go :
            (step : Result Appended × Store)
            → ReadsBack z laws body step
            → ((s' : Store)
                → IsValid s'
                → All
                    (λ e. read z e.1 (last bodies s') ≡ ok e.0)
                    (append_all z (whole bodies) s').0)
            → All
                (λ e. read z e.1 (last bodies step.1) ≡ ok e.0)
                (stored body step.0 (append_all z (whole bodies) step.1).0)
        go (ok a, s') h rest = (
          append_all-keeps later (append_all z (whole bodies) s').1 a.ptr body
              (append_all-keeps (whole bodies) s' a.ptr body h.0),
          rest s' h.4,
        )
        go (err e, s') h rest = rest s' h

  -- Open a directory with any segments in it, append any bodies with no write torn, and then any
  -- further bodies, of which any writes may tear. When all this is over, every pointer that an append
  -- of the first run returned reads back its own body. The codec gives back what it packs, also
  -- where bytes stand behind a frame.
  pub append_all_then_read :
      (segments : Dict Bytes) (bodies : List Bytes) (later : List (Bytes × Option ℕ))
      → All
          (λ e.
            read z e.1
              (append_all z later (append_all z (whole bodies) (open_active_segment segments)).1).1
            ≡ ok e.0)
          (append_all z (whole bodies) (open_active_segment segments)).0
  append_all_then_read segments bodies later =
      append_all-reads later bodies (open_active_segment segments)
        (open_active_segment-IsValid segments)
