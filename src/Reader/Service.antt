-- ===== src/Reader/Service.antt =====
-- The queries of `Reader` that the router sends, as an interface. The fused scores of its prose
-- search are of type `F`.
use kernel_lore_mcp.Base.{ℕ, List, Option}
use kernel_lore_mcp.Error.{Error, Result}
use kernel_lore_mcp.Text.{Text}
use kernel_lore_mcp.Reader.Rows.{MessageRow, EqField}

-- The prose search fails with a message; of the messages, the router tells that of an index that
-- is behind the corpus from the others.
pub data Prose (F : Type 0) : Type 0 where
  found : List (MessageRow × F) → Prose F
  behind_corpus : Prose F
  failed : Error → Prose F

pub record Reader (F : Type 0) : Type 0 where
  pub fetch_message : Text → Result (Option MessageRow)
  pub expand_citation : Text → ℕ → Result (List MessageRow)
  pub activity :
      Option Text → Option Text → Option ℕ → Option ℕ → Option Text → ℕ → Result (List MessageRow)
  pub eq : EqField → Text → Option ℕ → Option ℕ → Option Text → ℕ → Result (List MessageRow)
  pub all_rows : Option Text → Option ℕ → Option ℕ → Option ℕ → Result (List MessageRow)
  pub patch_search : Text → Option Text → ℕ → Result (List MessageRow)
  pub prose_search_filtered : Text → Option Text → ℕ → Prose F
