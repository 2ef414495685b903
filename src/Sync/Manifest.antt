-- ===== src/Sync/Manifest.antt =====
-- The manifest of src/sync.rs, and which of its shards are fetched. A `BTreeMap` is the list of its
-- entries, each key once.
use kernel_lore_mcp.Base.{
  ℕ, ◌≡◌, ◌≢◌, refl, sym, ◌∙◌, ap, Option-cases, none, inl, inr, ◌⊎◌, Bool, true, false, not, List,
  [], ◌∷◌, if◌then◌else◌, Bool-cases, ◌>>=◌, ◌↔◌, Option, some, unwrap_or, IsIn,
}
use mathlib.Core.Option.{some-injective}
use kernel_lore_mcp.Text.{Text, text_eq, text_eq-cases}
use kernel_lore_mcp.Dict.{Dict, lookup}
use kernel_lore_mcp.Sync.Glob.{path_matches, IsAllowed, path_matches_iff}

pub record ShardMeta : Type 0 where
  pub fingerprint : Text
  pub modified : Option ℕ
  pub owner : Option Text
  pub reference : Option Text

abbrev pub Manifest : Type 0
Manifest = Dict ShardMeta

-- the local cache has the entry with the same fingerprint
unfoldable pub is_same : Manifest → Text → ShardMeta → Bool
is_same local path meta =
    unwrap_or false (do prev ← lookup path local; some (text_eq prev.fingerprint meta.fingerprint))

unfoldable pub diff_manifest : Manifest → Manifest → List Text → List Text → List Text
diff_manifest [] local include exclude = []
diff_manifest ((path, meta) ∷ remote) local include exclude =
    let rest = diff_manifest remote local include exclude in
    if not (path_matches path include exclude)
    then rest
    else if is_same local path meta
    then rest
    else path ∷ rest

module _ (local : Manifest) (include exclude : List Text) (p : Text) where
  abbrev IsWanted : Manifest → Type 0
  IsWanted remote =
      (meta : ShardMeta) × IsIn (p, meta) remote
      × (path_matches p include exclude ≡ true)
      × (is_same local p meta ≡ false)

  IsWanted-later : (e : Text × ShardMeta) (r : Manifest) → IsWanted r → IsWanted (e ∷ r)
  IsWanted-later e r (meta, i, a, b) = (meta, inr i, a, b)

  diff_manifest-IsWanted :
      (r : Manifest) → IsIn p (diff_manifest r local include exclude) → IsWanted r
  unfolding diff_manifest
  diff_manifest-IsWanted [] i = elim i [ ]
  diff_manifest-IsWanted ((q, meta) ∷ r) i =
      let later : IsIn p (diff_manifest r local include exclude) → IsWanted ((q, meta) ∷ r) =
        λ j. IsWanted-later (q, meta) r (diff_manifest-IsWanted r j) in
      elim (Bool-cases (path_matches q include exclude)) [
        | inl e ↦ elim (Bool-cases (is_same local q meta)) [
          | inl f ↦ later (rw (e, f) at i)
          | inr f ↦
              let i' : (q ≡ p) ⊎ IsIn p (diff_manifest r local include exclude) = rw (e, f) at i in
              elim i' [
                | inl h ↦ (meta, inl (ap (λ z. (z, meta)) h), rw (← h) e, rw (← h) f)
                | inr j ↦ later j
              ]
        ]
        | inr e ↦ later (rw e at i)
      ]

  diff_manifest-wanted :
      (r : Manifest) (meta : ShardMeta)
      → IsIn (p, meta) r
      → path_matches p include exclude ≡ true
      → is_same local p meta ≡ false
      → IsIn p (diff_manifest r local include exclude)
  unfolding diff_manifest
  diff_manifest-wanted [] meta i a b = elim i [ ]
  diff_manifest-wanted ((q, n) ∷ r) meta (inl e) a b =
      let h : q ≡ p = ap (λ z. z.0) e in
      let k : n ≡ meta = ap (λ z. z.1) e in rw (h, k) (rw (a, b) (inl refl))
  diff_manifest-wanted ((q, n) ∷ r) meta (inr i) a b =
      let later = diff_manifest-wanted r meta i a b in
      elim (Bool-cases (path_matches q include exclude)) [
        | inl e ↦ elim (Bool-cases (is_same local q n)) [
          | inl f ↦ rw (e, f) later
          | inr f ↦ rw (e, f) (inr later)
        ]
        | inr e ↦ rw e later
      ]

-- The local manifest has no entry for the path, or one with another fingerprint.
abbrev pub IsChanged : Manifest → Text → ShardMeta → Type 0
IsChanged local p meta =
    (lookup p local ≡ none)
    ⊎ ((prev : ShardMeta) × (lookup p local ≡ some prev) × (prev.fingerprint ≢ meta.fingerprint))

is_same_iff :
    (local : Manifest) (p : Text) (meta : ShardMeta)
    → (is_same local p meta ≡ false) ↔ IsChanged local p meta
unfolding is_same
is_same_iff local p meta = elim (Option-cases (lookup p local)) [
  | inl e ↦ rw e (λ _. inl refl, λ _. refl)
  | inr (prev, e) ↦ elim (text_eq-cases prev.fingerprint meta.fingerprint) [
    | inl (t, q) ↦
        rw (e, t)
          (
            λ h. absurd (cc),
            λ c. elim c [ inl z ↦ absurd (cc) | inr (x, k, n) ↦ absurd (n (same prev x k ∙ q)) ],
          )
    | inr (t, n) ↦ rw (e, t) (λ _. inr (prev, refl, n), λ _. refl)
  ]
]
  where
    same :
        (prev x : ShardMeta)
        → ◌≡◌ {A = Option ShardMeta} (some prev) (some x)
        → x.fingerprint ≡ prev.fingerprint
    same prev x k = ap (λ (m : ShardMeta). m.fingerprint) (sym (some-injective prev x k))

-- A shard is fetched exactly if the remote manifest has it; a pattern to include matches its path,
-- or none is given, and no pattern to exclude does; and the local manifest has no entry for it or one
-- with another fingerprint.
pub diff_manifest_iff :
    (remote local : Manifest) (include exclude : List Text) (p : Text)
    → IsIn p (diff_manifest remote local include exclude) ↔ (
        (meta : ShardMeta) × IsIn (p, meta) remote
        × IsAllowed include exclude p
        × IsChanged local p meta)
diff_manifest_iff remote local include exclude p = (
  λ h.
      let (meta, i, a, b) = diff_manifest-IsWanted local include exclude p remote h in
      (meta, i, (path_matches_iff p include exclude).0 a, (is_same_iff local p meta).0 b),
  λ (meta, i, a, b).
      diff_manifest-wanted local include exclude p remote meta i
        ((path_matches_iff p include exclude).1 a) ((is_same_iff local p meta).1 b),
)
