-- ===== src/Ingest/Walk/Counts.antt =====
-- The counters of a walk, and its two lists of rows.
use kernel_lore_mcp.Base.{
  ℕ, ◌+◌, ◌≤◌, ◌==◌, ◌≡◌, refl, sym, ap, ◌∙◌, List, [], ◌∷◌, ◌++◌, map, length, length-append,
  if◌then◌else◌, Option, none, some, is_some, subst, arith, either, Bool-cases, inl, inr,
}
use kernel_lore_mcp.Error.{Result, Done, ok, err}
use kernel_lore_mcp.Text.{Text}
use kernel_lore_mcp.Store.{Bytes, Appended, Store, append}
use kernel_lore_mcp.Trigram.{Segment}
use kernel_lore_mcp.Parse.Message.{ParsedMessage, parse_message}
use kernel_lore_mcp.Ingest.Rows.{MetadataRow, OverRow, build_over_row}
use kernel_lore_mcp.Ingest.Walk.Defs.{
  Libraries, Commit, Stats, Run, Job, push, collapse, row_of, over_row_of, collect_rows, store_body,
  index_prose, index_patch, after_patch, ingest_parsed, ingest_blob, ingest_commit, next, walk,
}

-- the commits that are counted
abbrev pub total : Stats → ℕ
total s = s.ingested + s.skipped_no_m + s.skipped_empty + s.skipped_no_mid

-- where a row says that its message is
abbrev pub Place : Type 0
Place = ℕ × ℕ × Option Text

abbrev pub row_place : MetadataRow → Place
row_place r = (r.offset.segment_id, r.offset.offset, some r.commit_oid)

abbrev pub over_place : OverRow → Place
over_place r = (r.body_segment_id, r.body_offset, r.commit_oid)

-- Each commit that counts as ingested has a row for Parquet. If `OverDb` is shared, it has one for
-- over.db too, in the same order, and both say the same of where its message is; otherwise over.db
-- gets no row.
abbrev pub IsTallied : Job → Run → Type 0
IsTallied job run =
    (length run.batch ≡ run.stats.ingested)
    × (map over_place run.over_rows ≡ (if job.shared_over then map row_place run.batch else []))

map-snoc :
    {A B : Type 0} (f : A → B) (xs : List A) (x : A) → map f (xs ++ x ∷ []) ≡ map f xs ++ f x ∷ []
map-snoc f [] x = refl
map-snoc f (y ∷ ys) x = ap (λ t. f y ∷ t) (map-snoc f ys x)

push-some :
    (row : MetadataRow) (mid : Text) (batch : List MetadataRow)
    → row.parsed.message_id ≡ some mid
    → push row batch ≡ batch ++ row ∷ []
unfolding push
push-some row mid batch e = ap (λ o. if is_some o then batch ++ row ∷ [] else batch) e

module _ (l : Libraries) (job : Job) where
  -- A step counts its commit, unless it fails.
  abbrev Counts : ℕ → Done × Run → Type 0
  Counts n (err e, run) = IsTallied job run × (total run.stats ≡ n)
  Counts n (ok _, run) = IsTallied job run × (total run.stats ≡ n + 1)

  module _ (parsed : ParsedMessage) (raw_mid : Text) (m : parsed.message_id ≡ some raw_mid)
      (commit : Commit) where
    collect_rows-Counts :
        (mid : Text) (r : Result Appended × Store) (run : Run)
        → IsTallied job run
        → Counts (total run.stats) (collect_rows l job mid parsed commit r run)
    unfolding collect_rows build_over_row
    collect_rows-Counts mid (err e, s) run t = (t, refl)
    collect_rows-Counts mid (ok a, s) run t =
        let row = row_of l job parsed commit a in
        let pushed = push-some row raw_mid run.batch m in
        (
          (
            ap length pushed ∙ omega (arith, length-append run.batch (row ∷ []), t.0),
            elim (Bool-cases job.shared_over) [
              | inl e ↦ rw e (
                  map-snoc over_place run.over_rows (over_row_of l job mid parsed commit a)
                  ∙ ap (λ z. z ++ row_place row ∷ []) (rw e at t.1)
                  ∙ sym (map-snoc row_place run.batch row)
                  ∙ ap (map row_place) (sym pushed))
              | inr e ↦ rw e (rw e at t.1)
            ],
          ),
          omega arith,
        )

    store_body-Counts :
        (mid : Text) (bytes : Bytes) (d : Done) (run : Run)
        → IsTallied job run
        → Counts (total run.stats) (store_body l job mid parsed commit bytes d run)
    store_body-Counts mid bytes (err e) run t = (t, refl)
    store_body-Counts mid bytes (ok _) run t =
        collect_rows-Counts mid (append l.codec commit.torn bytes run.store) run t

    after_patch-Counts :
        (mid : Text) (bytes : Bytes) (seg : Result Segment) (run : Run)
        → IsTallied job run
        → Counts (total run.stats) (after_patch l job mid parsed commit bytes seg run)
    after_patch-Counts mid bytes (err e) run t = (t, refl)
    after_patch-Counts mid bytes (ok seg) run t =
        store_body-Counts mid bytes (index_prose l job mid parsed) (record run { trigram = seg }) t

  ingest_parsed-Counts :
      (parsed : ParsedMessage) (raw : Option Text)
      → parsed.message_id ≡ raw
      → (commit : Commit) (bytes : Bytes) (run : Run) → IsTallied job run
      → Counts (total run.stats) (ingest_parsed l job parsed raw commit bytes run)
  ingest_parsed-Counts parsed none m commit bytes run t = (t, omega arith)
  ingest_parsed-Counts parsed (some raw_mid) m commit bytes run t =
      after_patch-Counts parsed raw_mid m commit (collapse raw_mid) bytes
        (index_patch l job (collapse raw_mid) parsed.patch run.trigram) run t

  ingest_commit-Counts :
      (info : Result Commit) (run : Run)
      → IsTallied job run
      → Counts (total run.stats) (ingest_commit l job info run)
  unfolding ingest_commit
  ingest_commit-Counts (err e) run t = (t, refl)
  ingest_commit-Counts (ok commit) run t = blob commit.blob
    where
      blob : (b : Option Bytes) → Counts (total run.stats) (ingest_blob l job b commit run)
      blob none = (t, omega arith)
      blob (some bytes) =
          let p = parse_message l.to_lowercase l.now_ns commit.time_ns (l.mail_of bytes) in
          either (Counts (total run.stats)) (length bytes == 0) _ _ (t, omega arith)
            (ingest_parsed-Counts p p.message_id refl commit bytes run t)

  -- what a walk over that many commits has counted
  abbrev pub CountsAll : ℕ → ℕ → Done × Run → Type 0
  CountsAll n k (err e, run) = IsTallied job run × (total run.stats ≤ n + k)
  CountsAll n k (ok _, run) = IsTallied job run × (total run.stats ≡ n + k)

  next-CountsAll :
      (n k : ℕ) (step : Done × Run) (go_on : Run → Done × Run)
      → Counts n step
      → ((run : Run) → IsTallied job run → CountsAll (total run.stats) k (go_on run))
      → CountsAll n (k + 1) (next l job step go_on)
  next-CountsAll n k (err e, run) go_on (t, q) f = (t, omega (arith, q))
  next-CountsAll n k (ok _, run) go_on (t, q) f = shift (go_on run) (f run t)
    where
      shift : (r : Done × Run) → CountsAll (total run.stats) k r → CountsAll n (k + 1) r
      shift (err e, last) (u, h) = (u, omega (arith, q, h))
      shift (ok _, last) (u, h) = (u, omega (arith, q, h))

  -- A walk that ends well has counted each commit that it met exactly once, and one that fails has
  -- counted none twice. Either way each commit that counts as ingested has one row for Parquet. If the
  -- caller shares its `OverDb`, it also has one for over.db, in the same order, and the two agree on
  -- the commit and on where its message is; otherwise there is no row for over.db. The lists of the
  -- run that it starts from are so too.
  pub walk-CountsAll :
      (infos : List (Result Commit)) (run : Run)
      → IsTallied job run
      → CountsAll (total run.stats) (length infos) (walk l job infos run)
  unfolding walk
  walk-CountsAll [] run t = (t, omega arith)
  walk-CountsAll (info ∷ infos) run t =
      subst (λ k. CountsAll (total run.stats) k (walk l job (info ∷ infos) run)) (omega arith)
        (next-CountsAll (total run.stats) (length infos) (ingest_commit l job info run)
          (λ run'. walk l job infos run') (ingest_commit-Counts info run t)
          (λ run' t'. walk-CountsAll infos run' t'))
