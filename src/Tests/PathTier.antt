-- ===== src/Tests/PathTier.antt =====
-- src/path_tier.rs on three paths.
use kernel_lore_mcp.Base.{◌≡◌, refl, List, [], ◌∷◌, true, arith}
use kernel_lore_mcp.Error.{Result, ok}
use kernel_lore_mcp.Text.{Text, codes, starts_with, text_eq, text_lt}
use kernel_lore_mcp.Text.Sorted.{to_set}
use kernel_lore_mcp.PathTier.{
  Automaton, PathVocab, basename, index_basenames, from_paths, lookup_exact, lookup_basename,
  lookup_prefix, prefix_run, partition_point,
}
use kernel_lore_mcp.PathTier.Vocab.{Finds, to_list, from_paths-Finds}

abbrev paths : List Text
paths = codes "fs/smb.h" ∷ codes "net/x.c" ∷ codes "fs/smb.c" ∷ codes "net/x.c" ∷ []

abbrev build : List Text → Result Automaton
build ps = ok (λ body. [])

abbrev sorted : List Text
sorted = codes "fs/smb.c" ∷ codes "fs/smb.h" ∷ codes "net/x.c" ∷ []

abbrev vocab : PathVocab
vocab = record {
  paths = sorted;
  basename_index = index_basenames 0 sorted [];
  automaton = λ body. [];
}

built : from_paths build paths ≡ ok vocab
unfolding from_paths to_set text_eq text_lt
built = refl

below_fs : lookup_prefix (codes "fs/") vocab ≡ 0 ∷ 1 ∷ []
unfolding lookup_prefix prefix_run partition_point text_lt starts_with
below_fs = refl

from_paths-Finds_example :
    ((path : Text) → Finds vocab paths (to_list (lookup_exact path vocab)) (λ p. p ≡ path))
    × ((name : Text) → Finds vocab paths (lookup_basename name vocab) (λ p. basename p ≡ name))
    × ((prefix : Text)
        → Finds vocab paths (lookup_prefix prefix vocab) (λ p. starts_with prefix p ≡ true))
from_paths-Finds_example = from_paths-Finds build paths vocab built (omega arith)
