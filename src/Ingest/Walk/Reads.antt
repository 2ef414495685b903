-- ===== src/Ingest/Walk/Reads.antt =====
-- The rows that a walk collects point at the messages that it stored.
use kernel_lore_mcp.Base.{
  ℕ, ◌==◌, ◌≡◌, refl, sym, ap, inl, inr, List, [], ◌∷◌, ◌++◌, length, if◌then◌else◌, IsIn, All,
  All-append, All-weaken, Option, none, some, is_some, subst, leb, either,
}
use kernel_lore_mcp.Error.{Result, Done, ok, err}
use kernel_lore_mcp.Text.{Text}
use kernel_lore_mcp.Store.{
  Bytes, IsCodec, Appended, Store, append, append_after_roll, encode_and_write, write_frame, roll,
  read,
}
use kernel_lore_mcp.Store.Reading.{read-append_later}
use kernel_lore_mcp.Store.RoundTrip.{IsValid, ReadsBack, append-ReadsBack}
use kernel_lore_mcp.Trigram.{Segment}
use kernel_lore_mcp.Parse.Message.{ParsedMessage, parse_message}
use kernel_lore_mcp.Ingest.Rows.{MetadataRow}
use kernel_lore_mcp.Ingest.Walk.Defs.{
  Libraries, Commit, Run, Job, push, collapse, row_of, collect_rows, store_body, index_prose,
  index_patch, after_patch, ingest_parsed, ingest_blob, ingest_commit, next, walk,
}

module _ (l : Libraries) (laws : IsCodec l.codec) (job : Job) where
  -- The row is that of the commit with that message, and its pointer reads the message.
  abbrev pub IsRowOf : Store → Commit → Bytes → MetadataRow → Type 0
  IsRowOf s commit bytes row =
      (commit.blob ≡ some bytes)
      × (row.commit_oid ≡ commit.id)
      × (row.parsed ≡ parse_message l.to_lowercase l.now_ns commit.time_ns (l.mail_of bytes))
      × (read l.codec row.offset s ≡ ok bytes)

  -- The row is of a commit that the walk meets.
  abbrev pub IsStored : List (Result Commit) → Store → MetadataRow → Type 0
  IsStored infos s row =
      (commit : Commit) × (bytes : Bytes) × IsIn (ok commit) infos × IsRowOf s commit bytes row

  -- what is known when a step has ended: the writer is in order unless the step failed
  abbrev Keeps : List (Result Commit) → Done × Run → Type 0
  Keeps infos (err e, run) = All (IsStored infos run.store) run.batch
  Keeps infos (ok _, run) = All (IsStored infos run.store) run.batch × IsValid run.store

  -- An append that returns has stored the body.
  abbrev Stores : Bytes → Result Appended × Store → Type 0
  Stores bytes (err e, s) = Unit
  Stores bytes (ok a, s) = (read l.codec a.ptr s ≡ ok bytes) × IsValid s

  torn-Stores :
      (k : ℕ) (bytes : Bytes) (r : Result Store × Store)
      → Stores bytes (append_after_roll l.codec (some k) bytes r)
  unfolding append_after_roll encode_and_write write_frame
  torn-Stores k bytes (err e, s) = tt
  torn-Stores k bytes (ok _, s) = written (l.codec.encode_all bytes)
    where
      written :
          (frame : Result Bytes) → Stores bytes (encode_and_write l.codec (some k) bytes frame s)
      written (err e) = tt
      written (ok frame) = tt

  whole-Stores :
      (bytes : Bytes) (r : Result Appended × Store)
      → ReadsBack l.codec laws bytes r
      → Stores bytes r
  whole-Stores bytes (err e, s) h = tt
  whole-Stores bytes (ok a, s) h = (h.0, h.4)

  append-Stores :
      (torn : Option ℕ) (bytes : Bytes) (s : Store)
      → IsValid s
      → Stores bytes (append l.codec torn bytes s)
  append-Stores none bytes s v =
      whole-Stores bytes (append l.codec none bytes s) (append-ReadsBack l.codec laws bytes s v)
  append-Stores (some k) bytes s v =
      unfold append in torn-Stores k bytes (if leb 1073741824 s.position then roll s else (ok s, s))

  push-All :
      (P : MetadataRow → Type 0) (row : MetadataRow) (batch : List MetadataRow)
      → P row
      → All P batch
      → All P (push row batch)
  unfolding push
  push-All P row batch p a =
      either (All P) (is_some row.parsed.message_id) (batch ++ row ∷ []) batch
        (All-append P batch (row ∷ []) a (p, tt)) a

  module _ (infos : List (Result Commit)) where
    IsStored-later :
        (s : Store) (torn : Option ℕ) (body : Bytes) (rows : List MetadataRow)
        → All (IsStored infos s) rows
        → All (IsStored infos (append l.codec torn body s).1) rows
    IsStored-later s torn body rows =
        All-weaken (IsStored infos s) (IsStored infos (append l.codec torn body s).1)
          (λ row h.
            let (commit, bytes, i, (b, c, p, r)) = h in
            (
              commit,
              bytes,
              i,
              (b, c, p, read-append_later l.codec laws s row.offset bytes torn body r),
            ))
          rows

    module _ (commit : Commit) (bytes : Bytes) (i : IsIn (ok commit) infos)
        (b : commit.blob ≡ some bytes) where
      abbrev parsed : ParsedMessage
      parsed = parse_message l.to_lowercase l.now_ns commit.time_ns (l.mail_of bytes)

      collect_rows-Keeps :
          (mid : Text) (r : Result Appended × Store) (run : Run)
          → Stores bytes r
          → All (IsStored infos r.1) run.batch
          → Keeps infos (collect_rows l job mid parsed commit r run)
      unfolding collect_rows
      collect_rows-Keeps mid (err e, s) run h a = a
      collect_rows-Keeps mid (ok ap, s) run h a = (
        push-All (IsStored infos s) (row_of l job parsed commit ap) run.batch
            (commit, bytes, i, (b, refl, refl, h.0)) a,
        h.1,
      )

      store_body-Keeps :
          (mid : Text) (d : Done) (run : Run)
          → All (IsStored infos run.store) run.batch
          → IsValid run.store
          → Keeps infos (store_body l job mid parsed commit bytes d run)
      store_body-Keeps mid (err e) run a v = a
      store_body-Keeps mid (ok _) run a v =
          collect_rows-Keeps mid (append l.codec commit.torn bytes run.store) run
            (append-Stores commit.torn bytes run.store v)
            (IsStored-later run.store commit.torn bytes run.batch a)

      after_patch-Keeps :
          (mid : Text) (seg : Result Segment) (run : Run)
          → All (IsStored infos run.store) run.batch
          → IsValid run.store
          → Keeps infos (after_patch l job mid parsed commit bytes seg run)
      after_patch-Keeps mid (err e) run a v = a
      after_patch-Keeps mid (ok seg) run a v =
          store_body-Keeps mid (index_prose l job mid parsed) (record run { trigram = seg }) a v

      ingest_parsed-Keeps :
          (raw : Option Text) (run : Run)
          → All (IsStored infos run.store) run.batch
          → IsValid run.store
          → Keeps infos (ingest_parsed l job parsed raw commit bytes run)
      ingest_parsed-Keeps none run a v = (a, v)
      ingest_parsed-Keeps (some raw_mid) run a v =
          after_patch-Keeps (collapse raw_mid)
            (index_patch l job (collapse raw_mid) parsed.patch run.trigram) run a v

    ingest_blob-Keeps :
        (commit : Commit) (blob : Option Bytes)
        → commit.blob ≡ blob
        → IsIn (ok commit) infos
        → (run : Run) → All (IsStored infos run.store) run.batch
        → IsValid run.store
        → Keeps infos (ingest_blob l job blob commit run)
    ingest_blob-Keeps commit none b i run a v = (a, v)
    ingest_blob-Keeps commit (some bytes) b i run a v =
        let p = parse_message l.to_lowercase l.now_ns commit.time_ns (l.mail_of bytes) in
        either (Keeps infos) (length bytes == 0) _ _ (a, v)
          (ingest_parsed-Keeps commit bytes i b p.message_id run a v)

    next-Keeps :
        (step : Done × Run) (go_on : Run → Done × Run)
        → Keeps infos step
        → ((run : Run)
            → All (IsStored infos run.store) run.batch
            → IsValid run.store
            → Keeps infos (go_on run))
        → Keeps infos (next l job step go_on)
    next-Keeps (err e, run) go_on h f = h
    next-Keeps (ok _, run) go_on h f = f run h.0 h.1

    walk-Keeps :
        (rest : List (Result Commit))
        → ((c : Commit) → IsIn (ok c) rest → IsIn (ok c) infos)
        → (run : Run) → All (IsStored infos run.store) run.batch
        → IsValid run.store
        → Keeps infos (walk l job rest run)
    unfolding walk ingest_commit
    walk-Keeps [] f run a v = (a, v)
    walk-Keeps (err e ∷ rest) f run a v = a
    walk-Keeps (ok commit ∷ rest) f run a v =
        next-Keeps (ingest_blob l job commit.blob commit run) (λ run'. walk l job rest run')
          (ingest_blob-Keeps commit commit.blob refl (f commit (inl refl)) run a v)
          (λ run' a' v'. walk-Keeps rest (λ c j. f c (inr j)) run' a' v')

  kept :
      (infos : List (Result Commit)) (step : Done × Run)
      → Keeps infos step
      → All (IsStored infos step.1.store) step.1.batch
  kept infos (err e, run) h = h
  kept infos (ok _, run) h = h.0

  -- Whether a walk ends well or with an error, each row that it has collected is of a commit that it
  -- met: it holds the commit's id and its parsed message, and its pointer reads the whole message
  -- back. The store was in order before, no rows were collected, and zstd gives back what it packs.
  pub walk-IsStored :
      (infos : List (Result Commit)) (run : Run)
      → IsValid run.store
      → run.batch ≡ []
      → All (IsStored infos (walk l job infos run).1.store) (walk l job infos run).1.batch
  walk-IsStored infos run v e =
      kept infos (walk l job infos run) (
        walk-Keeps infos infos (λ c i. i) run (subst (All (IsStored infos run.store)) (sym e) tt) v)
