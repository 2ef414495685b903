-- ===== src/State/Disk.antt =====
-- The file system as far as src/state.rs uses it, and its `atomic_write`. A path is its parent
-- directory and its file name. A `Fault` says which call of an atomic write fails, or where the
-- process dies; a failed `write_all` may have written any part of the bytes.
use kernel_lore_mcp.Base.{
  ℕ, ◌≡◌, Bool, true, false, ◌&&◌, ◌↔◌, List, [], ◌∷◌, ◌++◌, take, arith, if◌then◌else◌,
}
use kernel_lore_mcp.Text.{Text, codes, text_eq, text_eq_iff}
use kernel_lore_mcp.Error.{Done, ok, err, io}

pub record FilePath : Type 0 where
  pub dir : List Text
  pub name : Text

pub dir_eq : List Text → List Text → Bool
dir_eq [] [] = true
dir_eq (x ∷ xs) (y ∷ ys) = text_eq x y && dir_eq xs ys
dir_eq _ _ = false

unfoldable pub path_eq : FilePath → FilePath → Bool
unfolding dir_eq
path_eq p q = dir_eq p.dir q.dir && text_eq p.name q.name

-- What `fs::read_to_string` finds: `unreadable` stands for every error but `NotFound`.
pub data Contents : Type 0 where
  missing unreadable : Contents
  file : Text → Contents

abbrev pub Disk : Type 0
Disk = FilePath → Contents

unfoldable pub put : FilePath → Contents → Disk → Disk
put p c d q = if path_eq p q then c else d q

unfoldable pub rename : FilePath → FilePath → Disk → Disk
unfolding put
rename from to d = put from missing (put to (d from) d)

pub data Fault : Type 0 where
  no_fault at_mkdir at_create at_sync at_rename : Fault
  at_write : ℕ → Fault

abbrev pub tmp_path : FilePath → FilePath
tmp_path p = record { dir = p.dir; name = codes "." ++ (p.name ++ codes ".tmp") }

unfoldable pub atomic_write : Fault → FilePath → Text → Disk → Done × Disk
unfolding put rename
atomic_write at_mkdir p bytes d = (err io, d)
atomic_write at_create p bytes d = (err io, d)
atomic_write (at_write n) p bytes d = (err io, put (tmp_path p) (file (take n bytes)) d)
atomic_write at_sync p bytes d = (err io, put (tmp_path p) (file bytes) d)
atomic_write at_rename p bytes d = (err io, put (tmp_path p) (file bytes) d)
atomic_write no_fault p bytes d = (ok tt, rename (tmp_path p) p (put (tmp_path p) (file bytes) d))

pub dir_eq_iff : (a b : List Text) → (dir_eq a b ≡ true) ↔ (a ≡ b)
unfolding dir_eq
dir_eq_iff [] [] = ground arith
dir_eq_iff [] (y ∷ ys) = ground arith
dir_eq_iff (x ∷ xs) [] = ground arith
dir_eq_iff (x ∷ xs) (y ∷ ys) = ground (arith, dir_eq_iff xs ys, text_eq_iff x y)

pub path_eq_iff : (p q : FilePath) → (path_eq p q ≡ true) ↔ (p ≡ q)
unfolding path_eq
path_eq_iff p q = ground (arith, dir_eq_iff p.dir q.dir, text_eq_iff p.name q.name)
