-- ===== src/PathTier/Defs.antt =====
-- `PathVocab` and its file. The Aho-Corasick automaton is a parameter: built from the paths, it
-- gives the numbers of the patterns that it finds in a body.
use kernel_lore_mcp.Base.{
  ℕ, suc, ◌^◌, ◌%◌, ◌==◌, List, [], ◌∷◌, ◌++◌, length, drop, get_elem?, ltb, if◌then◌else◌, Option,
  none, some, unwrap_or,
}
use kernel_lore_mcp.Error.{Result, Done, ok, err, io, ◌>>=◌, ◌>>◌}
use kernel_lore_mcp.Text.{Text, codes, text_eq, text_lt, starts_with, split, lines, nonempty}
use kernel_lore_mcp.Text.Sorted.{to_set}
use kernel_lore_mcp.Dict.{Dict, lookup, insert}
use kernel_lore_mcp.State.Disk.{
  FilePath, Contents, missing, unreadable, file, Disk, Fault, atomic_write,
}

abbrev pub Bytes : Type 0
Bytes = List ℕ

abbrev pub Automaton : Type 0
Automaton = Bytes → List ℕ

pub record PathVocab : Type 0 where
  pub paths : List Text
  pub basename_index : Dict (List ℕ)
  pub automaton : Automaton

-- `as u32`
abbrev pub u32 : ℕ → ℕ
u32 n = n % 2 ^ 32

unfoldable pub last_piece : List Text → Text
last_piece [] = []
last_piece (p ∷ []) = p
last_piece (p ∷ q ∷ r) = last_piece (q ∷ r)

-- `rsplit('/').next()`
unfoldable pub basename : Text → Text
basename path = last_piece (split (λ c. c == 47) path)

unfoldable pub index_basenames : ℕ → List Text → Dict (List ℕ) → Dict (List ℕ)
index_basenames id [] index = index
index_basenames id (path ∷ paths) index =
    let name = basename path in
    index_basenames (suc id) paths
      (insert name (unwrap_or [] (lookup name index) ++ u32 id ∷ []) index)

unfoldable pub from_paths : (List Text → Result Automaton) → List Text → Result PathVocab
from_paths build paths =
    let sorted = to_set paths in
    build sorted >>= λ automaton.
    ok (record {
      paths = sorted;
      basename_index = index_basenames 0 sorted [];
      automaton = automaton;
    })

abbrev pub len : PathVocab → ℕ
len v = length v.paths

-- a `RoaringBitmap`, as its sorted members
unfoldable pub bitmap_add : ℕ → List ℕ → List ℕ
bitmap_add n [] = n ∷ []
bitmap_add n (m ∷ ms) =
    let rest = bitmap_add n ms in
    if n == m then m ∷ ms else if ltb n m then n ∷ m ∷ ms else m ∷ rest

unfoldable pub seen_ids : List ℕ → List ℕ → List ℕ
seen_ids [] seen = seen
seen_ids (id ∷ ids) seen = seen_ids ids (bitmap_add (u32 id) seen)

unfoldable pub scan_body : Bytes → PathVocab → List ℕ
scan_body body v = seen_ids (v.automaton body) []

-- In a sorted list that has each text once, the binary search finds the index of the text.
unfoldable pub binary_search : Text → ℕ → List Text → Option ℕ
binary_search path i [] = none
binary_search path i (p ∷ ps) =
    let later = binary_search path (suc i) ps in if text_eq p path then some i else later

unfoldable pub lookup_exact : Text → PathVocab → Option ℕ
lookup_exact path v = elim (binary_search path 0 v.paths) [ none ↦ none | some i ↦ some (u32 i) ]

unfoldable pub lookup_basename : Text → PathVocab → List ℕ
lookup_basename name v = unwrap_or [] (lookup name v.basename_index)

-- how many paths stand before the prefix, in a sorted list
unfoldable pub partition_point : Text → List Text → ℕ
partition_point prefix [] = 0
partition_point prefix (p ∷ ps) =
    let n = partition_point prefix ps in if text_lt p prefix then suc n else 0

-- the loop, with the index of the next path
unfoldable pub prefix_run : Text → ℕ → List Text → List ℕ
prefix_run prefix i [] = []
prefix_run prefix i (p ∷ ps) =
    let rest = prefix_run prefix (suc i) ps in if starts_with prefix p then u32 i ∷ rest else []

unfoldable pub lookup_prefix : Text → PathVocab → List ℕ
lookup_prefix prefix v =
    let start = partition_point prefix v.paths in prefix_run prefix start (drop start v.paths)

abbrev pub path_for_id : ℕ → PathVocab → Option Text
path_for_id id v = get_elem? v.paths id

abbrev pub vocab_path : FilePath
vocab_path = record { dir = codes "paths" ∷ []; name = codes "vocab.txt" }

-- `join` with line feeds
unfoldable pub join_lines : List Text → Text
join_lines [] = []
join_lines (p ∷ []) = p
join_lines (p ∷ q ∷ r) = p ++ 10 ∷ join_lines (q ∷ r)

-- The temporary file and the rename are those of an atomic write, here without a sync: the fault
-- `at_sync` does not occur.
unfoldable pub save_vocab : Fault → PathVocab → Disk → Done × Disk
save_vocab fault v d = atomic_write fault vocab_path (join_lines v.paths) d

abbrev pub load_contents : (List Text → Result Automaton) → Contents → Result (Option PathVocab)
load_contents build missing = ok none
load_contents build unreadable = err io
load_contents build (file content) =
    let paths = nonempty (lines content) in
    if length paths == 0 then ok none else from_paths build paths >>= λ v. ok (some v)

unfoldable pub load_vocab : (List Text → Result Automaton) → Disk → Result (Option PathVocab)
load_vocab build d = load_contents build (d vocab_path)

-- `collect_paths_from_over`: the rows of the query, if there is an over.db
abbrev pub paths_from_over : Option (List Text) → List Text
paths_from_over rows = nonempty (unwrap_or [] rows)

-- the fallback: the touched files of every row of the metadata
unfoldable pub union : List (List Text) → List Text
union [] = []
union (touched_files ∷ rows) = touched_files ++ union rows

abbrev pub or_scanned : List Text → Result (List (List Text)) → Result (List Text)
or_scanned [] scan = scan >>= λ rows. ok (to_set (nonempty (union rows)))
or_scanned (p ∷ ps) scan = ok (p ∷ ps)

abbrev pub save_built : Fault → ℕ → Result PathVocab → Disk → Result ℕ × Disk
save_built fault count (err e) d = (err e, d)
save_built fault count (ok v) d = ((save_vocab fault v d).0 >> ok count, (save_vocab fault v d).1)

abbrev pub rebuild_from :
    (List Text → Result Automaton) → Fault → Result (List Text) → Disk → Result ℕ × Disk
rebuild_from build fault (err e) d = (err e, d)
rebuild_from build fault (ok paths) d =
    if length paths == 0
    then (ok 0, d)
    else save_built fault (length paths) (from_paths build paths) d

-- SQLite and the scan of the metadata are given by what they return.
unfoldable pub rebuild_vocab_from_over :
    (List Text → Result Automaton)
    → Fault
    → Result (Option (List Text))
    → Result (List (List Text))
    → Disk
    → Result ℕ × Disk
rebuild_vocab_from_over build fault over scan d =
    rebuild_from build fault (over >>= λ rows. or_scanned (paths_from_over rows) scan) d
