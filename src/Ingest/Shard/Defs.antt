-- ===== src/Ingest/Shard/Defs.antt =====
-- What is walked, and what is written when the loop is done. Of a shard's repository and of Parquet,
-- over.db, the trigram files and tantivy, the outcomes of the calls are given. The counters of the
-- rows written and the paths in `IngestStats` are left out.
use kernel_lore_mcp.Base.{
  ℕ, ◌==◌, Bool, true, false, not, ◌&&◌, ◌||◌, List, length, if◌then◌else◌, Option, none, some,
}
use kernel_lore_mcp.Error.{Result, Done, ok, err, ◌>>◌}
use kernel_lore_mcp.Text.{Text, codes}
use kernel_lore_mcp.State.Disk.{Disk, Fault}
use kernel_lore_mcp.State.{
  last_indexed_oid, save_last_indexed_oid, bump_generation, set_tier_generation,
}
use kernel_lore_mcp.Ingest.Walk.{Libraries, Commit, Run, Job, walk}

-- the head that is resolved, whether an object is there, and the commits from a head that are not
-- reached from the hidden one
pub record Repo : Type 0 where
  pub head : Result Text
  pub has_object : Text → Bool
  pub commits : Text → Option Text → Result (List (Result Commit))

-- The outcomes of the calls behind the loop. `insert_batch` is of the shared over.db, and fails
-- also when its mutex is poisoned.
pub record Calls : Type 0 where
  pub flush : Done
  pub write_parquet : Done
  pub insert_batch : Done
  pub finalize : Done
  pub bm25_commit : Done
  pub at_save : Fault
  pub at_bump : Fault
  pub at_over : Fault
  pub at_bm25 : Fault
  pub at_trigram : Fault

abbrev pub failed : Done → Bool
failed (err e) = true
failed (ok _) = false

-- `stats.over_failed`: the batch is tried only by a caller that shares its `OverDb`, and with rows
abbrev pub over_failed : Calls → Job → Run → Bool
over_failed c job run = job.shared_over && not (length run.over_rows == 0) && failed c.insert_batch

abbrev pub hidden_oid : Repo → Option Text → Option Text
hidden_oid repo none = none
hidden_oid repo (some oid) = if repo.has_object oid then some oid else none

abbrev pub on_ok : Done → Disk → Done × Disk → Done × Disk
on_ok (err e) d go_on = (err e, d)
on_ok (ok _) d go_on = go_on

abbrev pub then_on : Done × Disk → (Disk → Done × Disk) → Done × Disk
then_on (r, d) go_on = on_ok r d (go_on d)

module _ (c : Calls) where
  abbrev pub mark_over : ℕ → Bool → Disk → Done × Disk
  mark_over new_gen over_has_failed d =
      if over_has_failed then (ok tt, d) else set_tier_generation c.at_over (codes "over") new_gen d

  abbrev pub mark_trigram : ℕ → Disk → Done × Disk
  mark_trigram new_gen d = set_tier_generation c.at_trigram (codes "trigram") new_gen d

  abbrev pub mark_bm25 : ℕ → Disk → Done × Disk
  mark_bm25 new_gen d =
      then_on (set_tier_generation c.at_bm25 (codes "bm25") new_gen d) (mark_trigram new_gen)

  unfoldable pub set_markers : ℕ → Bool → Disk → Done × Disk
  set_markers new_gen over_has_failed d =
      then_on (mark_over new_gen over_has_failed d) (mark_bm25 new_gen)

  abbrev pub mark_bumped : Bool → Result ℕ × Disk → Done × Disk
  mark_bumped over_has_failed (err e, d) = (err e, d)
  mark_bumped over_has_failed (ok new_gen, d) = set_markers new_gen over_has_failed d

  -- the trigram segment, if a patch was indexed, and the commit of a writer of its own
  abbrev pub finish_tiers : Bool → Run → Done
  finish_tiers owns_bm25 run =
      (if length run.trigram.docs == 0 then ok tt else c.finalize)
      >> (if owns_bm25 then c.bm25_commit else ok tt)

  module _ (job : Job) (shared_bm25 : Bool) (head : Text) where
    -- the generation and the markers, unless the caller sees to them
    abbrev pub publish : Run → Disk → Done × Disk
    publish run d =
        if shared_bm25 || job.skip_bm25
        then (ok tt, d)
        else mark_bumped (over_failed c job run) (bump_generation c.at_bump d)

    unfoldable pub record_progress : Run → Disk → Done × Disk
    record_progress run d =
        then_on (save_last_indexed_oid c.at_save job.list job.shard head d) (publish run)

    -- what follows the loop
    unfoldable pub finish : Run → Disk → Done × Disk
    finish run d = on_ok c.flush d (
        if length run.batch == 0
        then save_last_indexed_oid c.at_save job.list job.shard head d
        else on_ok (c.write_parquet >> finish_tiers (not job.skip_bm25 && not shared_bm25) run) d
            (record_progress run d))

    abbrev pub after_walk : Done × Run → Disk → Done × Disk
    after_walk (err e, run) d = (err e, d)
    after_walk (ok _, run) d = finish run d

module _ (l : Libraries) (repo : Repo) (c : Calls) (job : Job) (shared_bm25 : Bool) where
  abbrev pub ingest_walk : Text → Result (List (Result Commit)) → Run → Disk → Done × Disk
  ingest_walk head (err e) run d = (err e, d)
  ingest_walk head (ok infos) run d = after_walk c job shared_bm25 head (walk l job infos run) d

  abbrev pub ingest_from : Text → Result (Option Text) → Run → Disk → Done × Disk
  ingest_from head (err e) run d = (err e, d)
  ingest_from head (ok last) run d =
      ingest_walk head (repo.commits head (hidden_oid repo last)) run d

  abbrev pub ingest_head : Result Text → Run → Disk → Done × Disk
  ingest_head (err e) run d = (err e, d)
  ingest_head (ok head) run d = ingest_from head (last_indexed_oid job.list job.shard d) run d

  -- `run` starts with the store opened and nothing collected
  unfoldable pub ingest_shard_with_bm25 : Run → Disk → Done × Disk
  ingest_shard_with_bm25 run d = ingest_head repo.head run d
