-- ===== src/State/Atomic.antt =====
-- `atomic_write` under every fault.
use kernel_lore_mcp.Base.{
  ◌≡◌, refl, ap, ◌⊎◌, inl, inr, true, false, length, length-append, arith, Bool-cases,
}
use kernel_lore_mcp.Text.{Text, codes}
use kernel_lore_mcp.Error.{ok, err, io}
use kernel_lore_mcp.State.Disk.{
  FilePath, path_eq, path_eq_iff, file, Disk, Fault, no_fault, at_mkdir, at_create, at_write,
  at_sync, at_rename, tmp_path, atomic_write,
}

pub tmp_path-ne : (p : FilePath) → path_eq (tmp_path p) p ≡ false
tmp_path-ne p = elim (Bool-cases (path_eq (tmp_path p) p)) [
  | inl e ↦
      let q = ap (λ (r : FilePath). length r.name) ((path_eq_iff (tmp_path p) p).0 e) in
      absurd (omega (arith, q, length-append p.name (codes ".tmp")))
  | inr e ↦ e
]

path_eq_refl : (p : FilePath) → path_eq p p ≡ true
path_eq_refl p = (path_eq_iff p p).1 refl

-- Whichever call fails and wherever the process dies, the file has its old contents and the write
-- reports the error, or it has exactly the new bytes and the write succeeds.
pub atomic_write_all_or_nothing :
    (fault : Fault) (p : FilePath) (bytes : Text) (d : Disk)
    → (((atomic_write fault p bytes d).0 ≡ ok tt)
        × ((atomic_write fault p bytes d).1 p ≡ file bytes))
      ⊎ (((atomic_write fault p bytes d).0 ≡ err io) × ((atomic_write fault p bytes d).1 p ≡ d p))
unfolding atomic_write
atomic_write_all_or_nothing no_fault p bytes d =
    inl (refl, rw (tmp_path-ne p, path_eq_refl p, path_eq_refl (tmp_path p)))
atomic_write_all_or_nothing at_mkdir p bytes d = inr (refl, refl)
atomic_write_all_or_nothing at_create p bytes d = inr (refl, refl)
atomic_write_all_or_nothing at_sync p bytes d = inr (refl, rw (tmp_path-ne p))
atomic_write_all_or_nothing at_rename p bytes d = inr (refl, rw (tmp_path-ne p))
atomic_write_all_or_nothing (at_write n) p bytes d = inr (refl, rw (tmp_path-ne p))

-- No other file changes but the temporary one.
pub atomic_write_frame :
    (fault : Fault) (p q : FilePath) (bytes : Text) (d : Disk)
    → path_eq p q ≡ false
    → path_eq (tmp_path p) q ≡ false
    → (atomic_write fault p bytes d).1 q ≡ d q
unfolding atomic_write
atomic_write_frame no_fault p q bytes d h k = rw (k, h)
atomic_write_frame at_mkdir p q bytes d h k = refl
atomic_write_frame at_create p q bytes d h k = refl
atomic_write_frame _ p q bytes d h k = rw k
