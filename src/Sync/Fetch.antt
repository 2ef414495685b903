-- ===== src/Sync/Fetch.antt =====
-- The fetch of one shard in src/sync.rs. The disk and the git library (gix, git2) are parameters:
-- a call has an outcome and leaves some disk.
use kernel_lore_mcp.Base.{
  ℕ, ◌≡◌, refl, ap, inl, inr, ◌⊎◌, Bool, true, false, not, [], ◌∷◌, ◌++◌, if◌then◌else◌, Bool-cases,
  Option, none, some, unwrap_or, ◌==◌, ◌>>=◌,
}
use kernel_lore_mcp.Text.{Text, codes, trim_start_matches, trim_end_matches}
use kernel_lore_mcp.Error.{Result, ok, err}

pub data FetchOutcome : Type 0 where
  cloned recloned fetched up_to_date : FetchOutcome

abbrev slash : ℕ
slash = 47

-- `rsplit_once('/')`: the part before the last slash
unfoldable pub before_last_slash : Text → Option Text
before_last_slash [] = none
before_last_slash (c ∷ s) = elim (before_last_slash s) [
  | some t ↦ some (c ∷ t)
  | none ↦ if c == slash then some [] else none
]

unfoldable pub shard_url : Text → Text → Text
shard_url manifest_url shard_path =
    unwrap_or manifest_url (before_last_slash manifest_url) ++ shard_path

unfoldable pub shard_local_path : Text → Text → Text
shard_local_path data_dir shard_path =
    data_dir ++ codes "/shards/" ++ trim_start_matches (λ c. c == slash) shard_path

-- `Path::parent`
unfoldable pub parent : Text → Option Text
parent path = before_last_slash (trim_end_matches (λ c. c == slash) path)

-- An operation on a disk of type W.
abbrev pub Op : Type 0 → Type 0 → Type 0
Op W A = W → W × Result A

pub record Git (W : Type 0) : Type 0 where
  pub exists : W → Text → Bool
  pub is_dir : W → Text → Bool
  -- git2 opens the repository and finds a reference with a target
  pub usable : W → Text → Bool
  pub create_dir_all : Text → Op W (Unit {0})
  pub remove_dir_all : Text → Op W (Unit {0})
  pub remove_file : Text → Op W (Unit {0})
  pub clone_bare : Text → Text → Op W (Unit {0})
  -- the number of updated references
  pub fetch : Text → Text → Op W ℕ

module _ {W : Type 0} where
  infixl 5 ◌then◌
  abbrev ◌then◌ : {A B : Type 0} → W × Result A → (A → Op W B) → W × Result B
  (w, err e) then next = (w, err e)
  (w, ok a) then next = next a w

module _ {W : Type 0} (git : Git W) where
  open git use {
    exists, is_dir, usable, create_dir_all, remove_dir_all, remove_file, clone_bare, fetch,
  }

  unfoldable pub clone_shard : Text → Text → Op W (Unit {0})
  clone_shard url local w =
      unwrap_or (w, ok tt) (do p ← parent local; some (create_dir_all p w)) then λ _.
      clone_bare url local

  unfoldable pub remove_path : Text → Op W (Unit {0})
  remove_path path w =
      if not (exists w path)
      then (w, ok tt)
      else if is_dir w path
      then remove_dir_all path w
      else remove_file path w

  unfoldable pub reclone_shard : Text → Text → Op W (Unit {0})
  reclone_shard url local w = remove_path local w then λ _. clone_shard url local

  unfoldable pub fetch_shard : Text → Text → Text → Op W FetchOutcome
  fetch_shard data_dir shard_path manifest_url w =
      let url = shard_url manifest_url shard_path in
      let local = shard_local_path data_dir shard_path in
      if not (exists w local)
      then (clone_shard url local w then λ _ v. (v, ok cloned))
      else if not (usable w local)
      then (reclone_shard url local w then λ _ v. (v, ok recloned))
      else (fetch url local w then λ edits v.
          if not (usable v local)
          then (reclone_shard url local v then λ _ u. (u, ok recloned))
          else (v, ok fetched))

  module _ (url local : Text) where
    -- A clone from the address into the path has succeeded and left this disk.
    abbrev pub IsClone : W → Type 0
    IsClone v = (u : W) × (clone_bare url local u ≡ (v, ok tt))

    -- The repository at the path is looked at and found unusable on this disk: before the fetch, or
    -- after a fetch that succeeded.
    abbrev pub IsUnusable : W → W → Type 0
    IsUnusable w b =
        ((b ≡ w) × (usable w local ≡ false))
        ⊎ ((usable w local ≡ true)
            × ((n : ℕ) × (fetch url local w ≡ (b, ok n)) × (usable b local ≡ false)))

    -- what a report says of the disk before and after
    abbrev pub IsReport : W → W × Result FetchOutcome → Type 0
    IsReport w (v, ok cloned) = (exists w local ≡ false) × IsClone v
    IsReport w (v, ok recloned) =
        (exists w local ≡ true)
        × ((b : W) × IsUnusable w b × ((remove_path local b).1 ≡ ok tt) × IsClone v)
    IsReport w (v, ok fetched) =
        (exists w local ≡ true)
        × (usable w local ≡ true)
        × ((n : ℕ) × (fetch url local w ≡ (v, ok n)))
        × (usable v local ≡ true)
    IsReport w (v, ok up_to_date) = ⊥
    IsReport w (v, err e) =
        (exists w local ≡ false)
        ⊎ (((b : W) × IsUnusable w b)
            ⊎ ((usable w local ≡ true) × (fetch url local w ≡ (v, err e))))

    -- a clone fails or leaves what a clone leaves
    abbrev Clones : W × Result (Unit {0}) → Type 0
    Clones (v, ok _) = IsClone v
    Clones (v, err e) = Unit

    clone_bare-Clones : (w : W) → Clones (clone_bare url local w)
    clone_bare-Clones w = go (clone_bare url local w) refl
      where
        go : (step : W × Result (Unit {0})) → clone_bare url local w ≡ step → Clones step
        go (v, ok _) q = (w, q)
        go (v, err e) q = tt

    then-Clones :
        (first : W × Result (Unit {0})) (next : Op W (Unit {0}))
        → ((v : W) → Clones (next v))
        → Clones (first then λ _. next)
    then-Clones (v, ok _) next h = h v
    then-Clones (v, err e) next h = tt

    clone_shard-Clones : (w : W) → Clones (clone_shard url local w)
    unfolding clone_shard
    clone_shard-Clones w =
        then-Clones (unwrap_or (w, ok tt) (do p ← parent local; some (create_dir_all p w)))
          (clone_bare url local) clone_bare-Clones

    -- the report of a path that was removed and cloned again
    recloned-IsReport :
        (w b : W)
        → exists w local ≡ true
        → IsUnusable w b
        → IsReport w (reclone_shard url local b then λ _ u. (u, ok recloned))
    unfolding reclone_shard
    recloned-IsReport w b x bad = removed (remove_path local b) refl
      where
        made :
            (step : W × Result (Unit {0}))
            → Clones step
            → (remove_path local b).1 ≡ ok tt
            → IsReport w (step then λ _ u. (u, ok recloned))
        made (v, ok _) c r = (x, (b, bad, r, c))
        made (v, err e) c r = inr (inl (b, bad))

        removed :
            (step : W × Result (Unit {0}))
            → remove_path local b ≡ step
            → IsReport w ((step then λ _. clone_shard url local) then λ _ u. (u, ok recloned))
        removed (a, ok _) q =
            made (clone_shard url local a) (clone_shard-Clones a) (ap (λ z. z.1) q)
        removed (a, err e) q = inr (inl (b, bad))

    cloned-IsReport :
        (w : W) (step : W × Result (Unit {0}))
        → exists w local ≡ false
        → Clones step
        → IsReport w (step then λ _ v. (v, ok cloned))
    cloned-IsReport w (v, ok _) x c = (x, c)
    cloned-IsReport w (v, err e) x c = inl x

    fetched-IsReport :
        (w : W) (step : W × Result ℕ)
        → exists w local ≡ true
        → usable w local ≡ true
        → fetch url local w ≡ step
        → IsReport w (
            step then λ edits v.
            if not (usable v local)
            then (reclone_shard url local v then λ _ u. (u, ok recloned))
            else (v, ok fetched))
    fetched-IsReport w (v, err e) x u q = inr (inr (u, q))
    fetched-IsReport w (v, ok n) x u q = elim (Bool-cases (usable v local)) [
      | inl f ↦ rw f (x, u, (n, q), f)
      | inr f ↦ rw f (recloned-IsReport w v x (inr (u, (n, q, f))))
    ]

  -- What the fetch of a shard reports is so. A clone: nothing was at the local path, and a clone into
  -- it succeeded. A second clone: the repository there was unusable, before the fetch or after one
  -- that succeeded, it was removed, and a clone into its path succeeded. A fetch: the repository was
  -- usable, and is so on the disk that the fetch left. A failure: nothing was there, or an unusable
  -- repository was met, or the fetch failed, and then the disk is as the fetch left it. The address
  -- and the path are those of the shard.
  pub fetch_shard-IsReport :
      (data_dir shard_path manifest_url : Text) (w : W)
      → IsReport
          (shard_url manifest_url shard_path)
          (shard_local_path data_dir shard_path)
          w
          (fetch_shard data_dir shard_path manifest_url w)
  unfolding fetch_shard
  fetch_shard-IsReport data_dir shard_path manifest_url w =
      let url = shard_url manifest_url shard_path in
      let local = shard_local_path data_dir shard_path in
      elim (Bool-cases (exists w local)) [
        | inr e ↦ rw e (
            cloned-IsReport url local w (clone_shard url local w) e
              (clone_shard-Clones url local w))
        | inl e ↦ elim (Bool-cases (usable w local)) [
          | inr f ↦ rw (e, f) (recloned-IsReport url local w w e (inl (refl, f)))
          | inl f ↦ rw (e, f) (fetched-IsReport url local w (fetch url local w) e f refl)
        ]
      ]
