-- ===== src/Tests/Ingest.antt =====
-- src/ingest.rs on a shard of three commits: one with a message, one empty, one without a blob.
use kernel_lore_mcp.Base.{◌≡◌, refl, true, false, List, [], ◌∷◌, Option, none, some, All}
use kernel_lore_mcp.Error.{Result, ok, err, sqlite}
use kernel_lore_mcp.Text.{Text, codes, to_ascii_lowercase}
use kernel_lore_mcp.State.Disk.{Disk, missing, no_fault, at_rename}
use kernel_lore_mcp.Store.{Bytes, open_active_segment}
use kernel_lore_mcp.Store.RoundTrip.{open_active_segment-IsValid}
use kernel_lore_mcp.Trigram.{empty_segment}
use kernel_lore_mcp.Parse.Message.{Mail}
use kernel_lore_mcp.Ingest.Walk.{Libraries, Commit, Run, Job, walk}
use kernel_lore_mcp.Ingest.Walk.Reads.{IsStored, walk-IsStored}
use kernel_lore_mcp.Ingest.Walk.Counts.{CountsAll, walk-CountsAll}
use kernel_lore_mcp.Ingest.Shard.{Repo, Calls, ingest_shard_with_bm25}
use kernel_lore_mcp.Ingest.Shard.Progress.{Advances, IsIngested, ingest_shard_with_bm25-Advances}
use kernel_lore_mcp.Tests.Store.{counting, counting-IsCodec}

-- every mail has the same headers; its body is its bytes
abbrev mail_of : Bytes → Option Mail
mail_of bytes = some (record {
  message_id = some (codes "<m@x>");
  from = none;
  to = none;
  cc = none;
  subject = none;
  date = none;
  in_reply_to = none;
  references = none;
  body_texts = some bytes ∷ [];
})

abbrev libraries : Libraries
libraries = record {
  codec = counting;
  mail_of = mail_of;
  to_lowercase = λ s. to_ascii_lowercase s;
  utf8 = λ s. s;
  to_json = λ d. none;
  now_ns = 0;
  bm25_add = λ a b c d. ok tt;
}

abbrev job : Job
job = record { list = codes "lkml"; shard = codes "0"; skip_bm25 = false; shared_over = true }

abbrev commit : Text → Option Bytes → Result Commit
commit id blob = ok (record { id = id; blob = blob; time_ns = none; torn = none })

abbrev infos : List (Result Commit)
infos =
    commit (codes "c") (some (codes "hello"))
    ∷ commit (codes "b") (some [])
    ∷ commit (codes "a") none
    ∷ []

abbrev start : Run
start = record {
  store = open_active_segment [];
  trigram = empty_segment;
  batch = [];
  over_rows = [];
  stats = record { ingested = 0; skipped_no_m = 0; skipped_empty = 0; skipped_no_mid = 0 };
}

walk-IsStored_example :
    All
      (IsStored libraries counting-IsCodec job infos (walk libraries job infos start).1.store)
      (walk libraries job infos start).1.batch
walk-IsStored_example =
    walk-IsStored libraries counting-IsCodec job infos start (open_active_segment-IsValid []) refl

walk-CountsAll_example : CountsAll libraries job 0 3 (walk libraries job infos start)
walk-CountsAll_example = walk-CountsAll libraries job infos start (refl, refl)

skipped :
    (walk libraries job (commit (codes "b") (some []) ∷ commit (codes "a") none ∷ []) start).1.stats
    ≡ record { ingested = 0; skipped_no_m = 1; skipped_empty = 1; skipped_no_mid = 0 }
unfolding walk
skipped = refl

abbrev head : Text
head = codes "0123456789abcdef0123456789abcdef01234567"

abbrev repo : Repo
repo = record { head = ok head; has_object = λ _. true; commits = λ _ _. ok infos }

-- over.db fails and so does the rename of the bm25 marker
abbrev calls : Calls
calls = record {
  flush = ok tt;
  write_parquet = ok tt;
  insert_batch = err sqlite;
  finalize = ok tt;
  bm25_commit = ok tt;
  at_save = no_fault;
  at_bump = no_fault;
  at_over = no_fault;
  at_bm25 = at_rename;
  at_trigram = no_fault;
}

abbrev fresh : Disk
fresh = λ _. missing

ingest_shard_with_bm25-Advances_example :
    Advances calls job false head
      (IsIngested calls job false head libraries repo start fresh refl)
      fresh
      (ingest_shard_with_bm25 libraries repo calls job false start fresh)
ingest_shard_with_bm25-Advances_example =
    ingest_shard_with_bm25-Advances calls job false head libraries repo start fresh refl refl
