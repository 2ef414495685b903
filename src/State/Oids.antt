-- ===== src/State/Oids.antt =====
-- The last indexed commit of each shard.
use kernel_lore_mcp.Base.{
  ◌≡◌, ◌≢◌, refl, subst, ◌∙◌, inl, inr, Bool, true, false, ◌&&◌, [], ◌∷◌, ◌++◌, All, all, arith,
  if◌then◌else◌, some, Bool-cases, &&-true, length, ◌==◌,
}
use kernel_lore_mcp.Text.{
  Text, codes, is_hexdigit, is_whitespace, text_eq, text_eq_iff, text_eq_refl,
}
use kernel_lore_mcp.Text.Trim.{trim-append_newline, hexdigit-not_whitespace}
use kernel_lore_mcp.Text.Suffix.{text_eq-append_right, text_eq-append_ne}
use kernel_lore_mcp.Error.{Result, ok, err}
use kernel_lore_mcp.State.Disk.{path_eq, file, Disk, Fault, tmp_path, atomic_write}
use kernel_lore_mcp.State.Atomic.{atomic_write_all_or_nothing, atomic_write_frame}
use kernel_lore_mcp.State.Defs.{shard_oid_path, is_oid, last_indexed_oid, save_last_indexed_oid}

abbrev pub is_ok {ℓ} : {A : Type ℓ} → Result A → Bool
is_ok (ok a) = true
is_ok (err e) = false

oid_path_eq :
    (l s l' s' : Text)
    → path_eq (shard_oid_path l s) (shard_oid_path l' s') ≡ (text_eq l l' && text_eq s s')
unfolding path_eq
oid_path_eq l s l' s' = simp (text_eq_refl, text_eq-append_right) (ground arith)

oid_path-ne-tmp :
    (l s l' s' : Text) → path_eq (tmp_path (shard_oid_path l s)) (shard_oid_path l' s') ≡ false
unfolding path_eq
oid_path-ne-tmp l s l' s' =
    let oid_name = codes "." ++ (s ++ codes ".oid") in
    let e : text_eq (oid_name ++ codes ".tmp") (s' ++ codes ".oid") ≡ false =
      text_eq-append_ne oid_name s' (codes ".tmp") (codes ".oid") refl (unfold text_eq in refl) in
    rw e (ground arith)

oid_all_hex : (s : Text) → all is_hexdigit s ≡ true → All (λ c. is_whitespace c ≡ false) s
oid_all_hex [] h = tt
oid_all_hex (c ∷ s) h =
    let (a, b) = &&-true (is_hexdigit c) (all is_hexdigit s) h in
    (hexdigit-not_whitespace c a, oid_all_hex s b)

oid-ne-nil : (oid : Text) → is_oid oid ≡ true → oid ≢ []
oid-ne-nil oid h e = cc (rw e at h)

-- What an oid file that was just written reads as.
read_back :
    (list shard oid : Text) (d : Disk)
    → is_oid oid ≡ true
    → d (shard_oid_path list shard) ≡ file (oid ++ 10 ∷ [])
    → last_indexed_oid list shard d ≡ ok (some oid)
unfolding last_indexed_oid
read_back list shard oid d h e =
    let (_, hex) = &&-true (length oid == 40) (all is_hexdigit oid) h in
    rw (e, trim-append_newline oid (oid-ne-nil oid h) (oid_all_hex oid hex), h)

save_same :
    (fault : Fault) (list shard oid : Text) (d : Disk)
    → is_oid oid ≡ true
    → last_indexed_oid list shard (save_last_indexed_oid fault list shard oid d).1 ≡ (
        if is_ok (save_last_indexed_oid fault list shard oid d).0
        then ok (some oid)
        else last_indexed_oid list shard d)
unfolding save_last_indexed_oid
save_same fault list shard oid d h =
    let p = shard_oid_path list shard in
    let bytes = oid ++ 10 ∷ [] in
    rw h (elim (atomic_write_all_or_nothing fault p bytes d) [
      | inl (r, e) ↦ rw r (read_back list shard oid (atomic_write fault p bytes d).1 h e)
      | inr (r, e) ↦ rw r (unfold last_indexed_oid in rw e)
    ])

save_other :
    (fault : Fault) (list shard oid : Text) (d : Disk) (list' shard' : Text)
    → (text_eq list list' && text_eq shard shard') ≡ false
    → last_indexed_oid list' shard' (save_last_indexed_oid fault list shard oid d).1
      ≡ last_indexed_oid list' shard' d
unfolding save_last_indexed_oid last_indexed_oid
save_other fault list shard oid d list' shard' n = elim (Bool-cases (is_oid oid)) [
  | inl h ↦ rw (
    h,
    atomic_write_frame fault (shard_oid_path list shard) (shard_oid_path list' shard')
        (oid ++ 10 ∷ []) d (oid_path_eq list shard list' shard' ∙ n)
        (oid_path-ne-tmp list shard list' shard'),
  )
  | inr h ↦ rw h
]

-- After saving a well-formed commit id under any fault, the saved shard reads the new id exactly if
-- the save succeeded, and otherwise, like every other shard, what it read before.
pub last_indexed_oid-save :
    (fault : Fault) (list shard oid : Text) (d : Disk) (list' shard' : Text)
    → is_oid oid ≡ true
    → last_indexed_oid list' shard' (save_last_indexed_oid fault list shard oid d).1 ≡ (
        if (text_eq list list' && text_eq shard shard')
          && is_ok (save_last_indexed_oid fault list shard oid d).0
        then ok (some oid)
        else last_indexed_oid list' shard' d)
last_indexed_oid-save fault list shard oid d list' shard' h =
    elim (Bool-cases (text_eq list list' && text_eq shard shard')) [
      | inl same ↦
          let (l, s) = &&-true (text_eq list list') (text_eq shard shard') same in
          rw same (
            subst
              (λ l'. last_indexed_oid l' shard' (save_last_indexed_oid fault list shard oid d).1 ≡ (
                if is_ok (save_last_indexed_oid fault list shard oid d).0
                then ok (some oid)
                else last_indexed_oid l' shard' d))
              ((text_eq_iff list list').0 l)
              (subst
                (λ s'. last_indexed_oid list s' (save_last_indexed_oid fault list shard oid d).1 ≡ (
                  if is_ok (save_last_indexed_oid fault list shard oid d).0
                  then ok (some oid)
                  else last_indexed_oid list s' d))
                ((text_eq_iff shard shard').0 s) (save_same fault list shard oid d h)))
      | inr other ↦ rw other (save_other fault list shard oid d list' shard' other)
    ]
