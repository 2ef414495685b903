-- ===== src/Ingest/Walk/Defs.antt =====
-- One commit after the other: parse, index, store, collect the rows. An error ends the walk and
-- leaves what was done.
use kernel_lore_mcp.Base.{
  ℕ, ◌+◌, ◌==◌, Bool, not, ◌&&◌, ◌||◌, List, [], ◌∷◌, ◌++◌, length, retain, if◌then◌else◌, Option,
  none, some, is_some,
}
use kernel_lore_mcp.Error.{Result, Done, ok, err}
use kernel_lore_mcp.Text.{Text, is_whitespace}
use kernel_lore_mcp.Dict.{Dict}
use kernel_lore_mcp.Store.{Bytes, Codec, Appended, Store, append}
use kernel_lore_mcp.Trigram.{Segment, add}
use kernel_lore_mcp.Parse.Message.{Mail, ParsedMessage, parse_message}
use kernel_lore_mcp.Ingest.Rows.{MetadataRow, OverRow, hex, build_over_row}

-- zstd and sha256, mail_parser, Unicode lower case, UTF-8, serde_json, the clock, and the outcome of
-- adding a message to the full text index
pub record Libraries : Type 0 where
  pub codec : Codec
  pub mail_of : Bytes → Option Mail
  pub to_lowercase : Text → Text
  pub utf8 : Text → Bytes
  pub to_json : Dict (List Text) → Option Text
  pub now_ns : ℕ
  pub bm25_add : Text → Text → Option Text → Text → Done

-- What the walk meets: the commit's id, the blob `m` of its tree if there is one, and its time. A
-- write to the store that tears has put `torn` bytes in the file.
pub record Commit : Type 0 where
  pub id : Text
  pub blob : Option Bytes
  pub time_ns : Option ℕ
  pub torn : Option ℕ

-- the part of `IngestStats` that the loop counts
pub record Stats : Type 0 where
  pub ingested : ℕ
  pub skipped_no_m : ℕ
  pub skipped_empty : ℕ
  pub skipped_no_mid : ℕ

pub record Run : Type 0 where
  pub store : Store
  pub trigram : Segment
  pub batch : List MetadataRow
  pub over_rows : List OverRow
  pub stats : Stats

-- the list, the shard, `skip_bm25`, and whether the caller shares its `OverDb`
pub record Job : Type 0 where
  pub list : Text
  pub shard : Text
  pub skip_bm25 : Bool
  pub shared_over : Bool

-- `split_whitespace().collect()`
abbrev pub collapse : Text → Text
collapse raw_mid = retain (λ c. not (is_whitespace c)) raw_mid

-- `MetadataBatch::push` drops a row without a message id
unfoldable pub push : MetadataRow → List MetadataRow → List MetadataRow
push row batch = if is_some row.parsed.message_id then batch ++ row ∷ [] else batch

abbrev pub skip_no_m : Run → Run
skip_no_m run = record run {
  stats = record run.stats { skipped_no_m = run.stats.skipped_no_m + 1 };
}

abbrev pub skip_empty : Run → Run
skip_empty run = record run {
  stats = record run.stats { skipped_empty = run.stats.skipped_empty + 1 };
}

abbrev pub skip_no_mid : Run → Run
skip_no_mid run = record run {
  stats = record run.stats { skipped_no_mid = run.stats.skipped_no_mid + 1 };
}

module _ (l : Libraries) (job : Job) where
  abbrev pub over_row_of : Text → ParsedMessage → Commit → Appended → OverRow
  over_row_of mid parsed commit a =
      build_over_row l.to_json mid job.list parsed a.ptr a.body_length (hex a.body_sha256) job.shard
        commit.id

  abbrev pub row_of : ParsedMessage → Commit → Appended → MetadataRow
  row_of parsed commit a = record {
    list = job.list;
    shard = job.shard;
    commit_oid = commit.id;
    offset = a.ptr;
    body_sha256_hex = hex a.body_sha256;
    body_length = a.body_length;
    parsed = parsed;
  }

  -- what follows `append`
  unfoldable pub collect_rows :
      Text → ParsedMessage → Commit → Result Appended × Store → Run → Done × Run
  collect_rows mid parsed commit (err e, s) run = (err e, record run { store = s })
  collect_rows mid parsed commit (ok a, s) run = (
    ok tt,
    record run {
      store = s;
      over_rows =
          (if job.shared_over
            then run.over_rows ++ over_row_of mid parsed commit a ∷ []
            else run.over_rows);
      batch = push (row_of parsed commit a) run.batch;
      stats = record run.stats { ingested = run.stats.ingested + 1 };
    },
  )

  abbrev pub store_body : Text → ParsedMessage → Commit → Bytes → Done → Run → Done × Run
  store_body mid parsed commit bytes (err e) run = (err e, run)
  store_body mid parsed commit bytes (ok _) run =
      collect_rows mid parsed commit (append l.codec commit.torn bytes run.store) run

  abbrev pub index_prose : Text → ParsedMessage → Done
  index_prose mid parsed =
      if not job.skip_bm25 && (not (length parsed.prose == 0) || is_some parsed.subject_normalized)
      then l.bm25_add mid job.list parsed.subject_normalized parsed.prose
      else ok tt

  abbrev pub index_patch : Text → Option Text → Segment → Result Segment
  index_patch mid none seg = ok seg
  index_patch mid (some patch) seg = add mid (l.utf8 patch) seg

  abbrev pub after_patch : Text → ParsedMessage → Commit → Bytes → Result Segment → Run → Done × Run
  after_patch mid parsed commit bytes (err e) run = (err e, run)
  after_patch mid parsed commit bytes (ok seg) run =
      store_body mid parsed commit bytes (index_prose mid parsed) (record run { trigram = seg })

  abbrev pub ingest_parsed : ParsedMessage → Option Text → Commit → Bytes → Run → Done × Run
  ingest_parsed parsed none commit bytes run = (ok tt, skip_no_mid run)
  ingest_parsed parsed (some raw_mid) commit bytes run =
      after_patch (collapse raw_mid) parsed commit bytes
        (index_patch (collapse raw_mid) parsed.patch run.trigram) run

  abbrev pub ingest_blob : Option Bytes → Commit → Run → Done × Run
  ingest_blob none commit run = (ok tt, skip_no_m run)
  ingest_blob (some bytes) commit run =
      let parsed = parse_message l.to_lowercase l.now_ns commit.time_ns (l.mail_of bytes) in
      if length bytes == 0
      then (ok tt, skip_empty run)
      else ingest_parsed parsed parsed.message_id commit bytes run

  -- the body of the loop; an error of the walk itself stands for the commit
  unfoldable pub ingest_commit : Result Commit → Run → Done × Run
  unfolding collect_rows
  ingest_commit (err e) run = (err e, run)
  ingest_commit (ok commit) run = ingest_blob commit.blob commit run

  abbrev pub next : Done × Run → (Run → Done × Run) → Done × Run
  next (err e, run) go_on = (err e, run)
  next (ok _, run) go_on = go_on run

  unfoldable pub walk : List (Result Commit) → Run → Done × Run
  unfolding ingest_commit
  walk [] run = (ok tt, run)
  walk (info ∷ infos) run = next (ingest_commit info run) (λ run'. walk infos run')
