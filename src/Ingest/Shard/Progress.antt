-- ===== src/Ingest/Shard/Progress.antt =====
-- When an ingest moves on the last indexed commit of its shard.
use kernel_lore_mcp.Base.{
  ℕ, ◌==◌, ◌≡◌, ◌≢◌, refl, ◌∙◌, inl, inr, Bool, true, false, not, ◌&&◌, ◌||◌, List, length,
  if◌then◌else◌, Option, some, Bool-cases, arith, either,
}
use kernel_lore_mcp.Error.{Error, Result, Done, ok, err, ◌>>◌}
use kernel_lore_mcp.Text.{Text, codes, text_eq}
use kernel_lore_mcp.State.Disk.{Disk}
use kernel_lore_mcp.State.{
  is_oid, last_indexed_oid, save_last_indexed_oid, bump_generation, set_tier_generation,
}
use kernel_lore_mcp.State.Others.{SameOids, set_tier_generation-SameOids, bump_generation-SameOids}
use kernel_lore_mcp.State.Oids.{is_ok, last_indexed_oid-save}
use kernel_lore_mcp.Ingest.Walk.{Libraries, Commit, Run, Job, walk}
use kernel_lore_mcp.Ingest.Shard.Defs.{
  Repo, Calls, on_ok, then_on, mark_over, mark_bm25, mark_trigram, publish, hidden_oid, set_markers,
  mark_bumped, finish_tiers, record_progress, finish, after_walk, ingest_walk, ingest_from,
  ingest_shard_with_bm25, over_failed,
}

then_on-SameOids :
    (d : Disk) (step : Done × Disk) (go_on : Disk → Done × Disk)
    → SameOids d step.1
    → ((d1 : Disk) → SameOids d1 (go_on d1).1)
    → SameOids d (then_on step go_on).1
then_on-SameOids d (err e, d1) go_on h f = h
then_on-SameOids d (ok _, d1) go_on h f = λ list shard. f d1 list shard ∙ h list shard

set_markers-SameOids :
    (c : Calls) (n : ℕ) (b : Bool) (d : Disk) → SameOids d (set_markers c n b d).1
unfolding set_markers
set_markers-SameOids c n b d =
    then_on-SameOids d (mark_over c n b d) (mark_bm25 c n)
      (either (λ (r : Done × Disk). SameOids d r.1) b (ok tt, d)
        (set_tier_generation c.at_over (codes "over") n d) (λ list shard. refl)
        (set_tier_generation-SameOids c.at_over (codes "over") n d))
      (λ d1.
        then_on-SameOids d1 (set_tier_generation c.at_bm25 (codes "bm25") n d1) (mark_trigram c n)
          (set_tier_generation-SameOids c.at_bm25 (codes "bm25") n d1)
          (λ d2. set_tier_generation-SameOids c.at_trigram (codes "trigram") n d2))

mark_bumped-SameOids :
    (c : Calls) (b : Bool) (d : Disk) (r : Result ℕ × Disk)
    → SameOids d r.1
    → SameOids d (mark_bumped c b r).1
mark_bumped-SameOids c b d (err e, d1) h = h
mark_bumped-SameOids c b d (ok n, d1) h =
    λ list shard. set_markers-SameOids c n b d1 list shard ∙ h list shard

unmoved : {A : Type 0} (b : Bool) (x y : A) → x ≡ (if b && false then y else x)
unmoved true x y = refl
unmoved false x y = refl

module _ (c : Calls) (job : Job) (shared_bm25 : Bool) (head : Text) where
  -- The shard's last indexed commit is the head if it was saved, and what it was otherwise. That of
  -- every other shard is what it was.
  abbrev pub Moved : Disk → Bool → Disk → Type 0
  Moved d saved d' =
      (list shard : Text)
      → last_indexed_oid list shard d' ≡ (
          if (text_eq job.list list && text_eq job.shard shard) && saved
          then ok (some head)
          else last_indexed_oid list shard d)

  -- What is on disk when the head is saved: the store, and the Parquet file and the trigram segment
  -- unless there was nothing to put in them.
  abbrev pub IsDurable : Run → Type 0
  IsDurable run =
      (c.flush ≡ ok tt)
      × (length run.batch ≢ 0 → c.write_parquet ≡ ok tt)
      × (length run.batch ≢ 0 → length run.trigram.docs ≢ 0 → c.finalize ≡ ok tt)

  -- The head is saved or not: saved only when `D`, and whenever the ingest succeeds.
  abbrev pub Advances : Type 0 → Disk → Done × Disk → Type 0
  Advances D d r =
      (saved : Bool) × Moved d saved r.1 × (saved ≡ true → D) × (is_ok r.0 ≡ true → saved ≡ true)

  fails-Advances : (D : Type 0) (d : Disk) (e : Error) → Advances D d (err e, d)
  fails-Advances D d e = (
    false,
    λ list shard.
        unmoved (text_eq job.list list && text_eq job.shard shard) (last_indexed_oid list shard d)
          (ok (some head)),
    λ q. absurd (cc),
    λ q. absurd (cc),
  )

  save-Advances :
      (D : Type 0) (d : Disk)
      → is_oid head ≡ true
      → D
      → Advances D d (save_last_indexed_oid c.at_save job.list job.shard head d)
  save-Advances D d h x = (
    is_ok (save_last_indexed_oid c.at_save job.list job.shard head d).0,
    λ list shard. last_indexed_oid-save c.at_save job.list job.shard head d list shard h,
    λ _. x,
    λ q. q,
  )

  then_on-Advances :
      (D : Type 0) (d : Disk) (step : Done × Disk) (go_on : Disk → Done × Disk)
      → Advances D d step
      → ((d1 : Disk) → SameOids d1 (go_on d1).1)
      → Advances D d (then_on step go_on)
  then_on-Advances D d (err e, d1) go_on a f = a
  then_on-Advances D d (ok _, d1) go_on (saved, moved, x, y) f =
      (saved, λ list shard. f d1 list shard ∙ moved list shard, x, λ _. y refl)

  record_progress-Advances :
      (D : Type 0) (run : Run) (d : Disk)
      → is_oid head ≡ true
      → D
      → Advances D d (record_progress c job shared_bm25 head run d)
  unfolding record_progress
  record_progress-Advances D run d h x =
      then_on-Advances D d (save_last_indexed_oid c.at_save job.list job.shard head d)
        (publish c job shared_bm25 head run) (save-Advances D d h x)
        (λ d1.
          either (λ (r : Done × Disk). SameOids d1 r.1) (shared_bm25 || job.skip_bm25) (ok tt, d1)
            (mark_bumped c (over_failed c job run) (bump_generation c.at_bump d1))
            (λ list shard. refl)
            (mark_bumped-SameOids c (over_failed c job run) d1 (bump_generation c.at_bump d1)
              (bump_generation-SameOids c.at_bump d1)))

  on_ok-Advances :
      (D : Type 0) (d : Disk) (r : Done) (go_on : Done × Disk)
      → (r ≡ ok tt → Advances D d go_on)
      → Advances D d (on_ok r d go_on)
  on_ok-Advances D d (err e) go_on f = fails-Advances D d e
  on_ok-Advances D d (ok _) go_on f = f refl

  -- A chain of two that succeeds.
  both_ok : (a b : Done) → (a >> b) ≡ ok tt → (a ≡ ok tt) × (b ≡ ok tt)
  both_ok (err e) b h = absurd (cc)
  both_ok (ok _) b h = (refl, h)

  finish-Advances :
      (run : Run) (d : Disk)
      → is_oid head ≡ true
      → Advances (IsDurable run) d (finish c job shared_bm25 head run d)
  unfolding finish
  finish-Advances run d h = on_ok-Advances (IsDurable run) d c.flush _ (λ flushed.
      elim (Bool-cases (length run.batch == 0)) [
        | inl e ↦ rw e (
            save-Advances (IsDurable run) d h
              (flushed, λ n. absurd (n (ground (arith, e))), λ n. absurd (n (ground (arith, e)))))
        | inr e ↦ rw e (
            on_ok-Advances (IsDurable run) d
              (c.write_parquet >> finish_tiers c (not job.skip_bm25 && not shared_bm25) run) _
              (λ q.
                let (w, t) =
                  both_ok c.write_parquet
                    (finish_tiers c (not job.skip_bm25 && not shared_bm25) run) q in
                let (s, _) =
                  both_ok (if length run.trigram.docs == 0 then ok tt else c.finalize) _ t in
                record_progress-Advances (IsDurable run) run d h
                  (flushed, λ _. w, λ _ n. final n s)))
      ])
    where
      final :
          length run.trigram.docs ≢ 0
          → (if length run.trigram.docs == 0 then ok tt else c.finalize) ≡ ok tt
          → c.finalize ≡ ok tt
      final n s = elim (Bool-cases (length run.trigram.docs == 0)) [
        | inl e ↦ absurd (n (ground (arith, e)))
        | inr e ↦ rw e at s
      ]

  weaken-Advances :
      (D E : Type 0) (d : Disk) (r : Done × Disk) → (D → E) → Advances D d r → Advances E d r
  weaken-Advances D E d r f (saved, moved, x, y) = (saved, moved, λ q. f (x q), y)

  after_walk-Advances :
      (r : Done × Run) (d : Disk)
      → is_oid head ≡ true
      → Advances ((r.0 ≡ ok tt) × IsDurable r.1) d (after_walk c job shared_bm25 head r d)
  after_walk-Advances (err e, run) d h = fails-Advances _ d e
  after_walk-Advances (ok _, run) d h =
      weaken-Advances (IsDurable run) ((◌≡◌ {A = Done} (ok tt) (ok tt)) × IsDurable run) d
        (finish c job shared_bm25 head run d) (λ x. (refl, x)) (finish-Advances run d h)

  module _ (l : Libraries) (repo : Repo) (run : Run) (d : Disk) (h : is_oid head ≡ true) where
    -- The commits that the last indexed one does not hide were all walked without an error, and what
    -- the walk collected is durable.
    abbrev pub IsIngested : Type 0
    IsIngested =
        (last : Option Text) × (infos : List (Result Commit)) × (last_indexed_oid job.list job.shard
            d
          ≡ ok last)
        × (repo.commits head (hidden_oid repo last) ≡ ok infos)
        × ((walk l job infos run).0 ≡ ok tt)
        × IsDurable (walk l job infos run).1

    walked-Advances :
        (last : Option Text) (infos : Result (List (Result Commit)))
        → last_indexed_oid job.list job.shard d ≡ ok last
        → repo.commits head (hidden_oid repo last) ≡ infos
        → Advances IsIngested d (ingest_walk l repo c job shared_bm25 head infos run d)
    walked-Advances last (err e) p q = fails-Advances IsIngested d e
    walked-Advances last (ok infos) p q =
        weaken-Advances (((walk l job infos run).0 ≡ ok tt) × IsDurable (walk l job infos run).1)
          IsIngested d (after_walk c job shared_bm25 head (walk l job infos run) d)
          (λ x. (last, infos, p, q, x.0, x.1)) (after_walk-Advances (walk l job infos run) d h)

    started-Advances :
        (last : Result (Option Text))
        → last_indexed_oid job.list job.shard d ≡ last
        → Advances IsIngested d (ingest_from l repo c job shared_bm25 head last run d)
    started-Advances (err e) p = fails-Advances IsIngested d e
    started-Advances (ok last) p =
        walked-Advances last (repo.commits head (hidden_oid repo last)) p refl

    -- An ingest that succeeds makes the head the last indexed commit of its shard. Whether it
    -- succeeds or fails, and under any faults: if the head was recorded, then each commit that the
    -- last indexed one does not hide was walked without an error, the store was flushed, and the
    -- Parquet file and trigram segment were written unless there was nothing for them. If it was not
    -- recorded, the shard's last indexed commit is what it was. The other shards keep theirs. The head
    -- was resolved and has the form of a commit id.
    pub ingest_shard_with_bm25-Advances :
        repo.head ≡ ok head
        → Advances IsIngested d (ingest_shard_with_bm25 l repo c job shared_bm25 run d)
    unfolding ingest_shard_with_bm25
    ingest_shard_with_bm25-Advances q =
        rw q (started-Advances (last_indexed_oid job.list job.shard d) refl)
