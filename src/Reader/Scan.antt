-- ===== src/Reader/Scan.antt =====
-- The queries that scan the rows, where over.db has no index for them. What the Parquet files hold and
-- how each step of reading them comes out is given.
use kernel_lore_mcp.Base.{
  ℕ, ◌+◌, Bool, true, false, ◌&&◌, List, [], ◌∷◌, ◌++◌, any, leb, ltb, length, if◌then◌else◌,
  Option, none, some, unwrap_or, sort_by,
}
use kernel_lore_mcp.Error.{Result, Done, ok, err, ◌>>=◌, ◌>>◌}
use kernel_lore_mcp.Text.{Text, text_eq}
use kernel_lore_mcp.Text.Distinct.{listed}
use kernel_lore_mcp.Reader.Rows.{MessageRow, EqField}
use kernel_lore_mcp.Reader.Matches.{eq_field_matches}

abbrev pub in_list_filter : Option Text → MessageRow → Bool
in_list_filter none r = true
in_list_filter (some l) r = text_eq r.list l

-- a bound rejects a row without a date
abbrev pub is_dated_since : Option ℕ → Option ℕ → Bool
is_dated_since none d = true
is_dated_since (some t) none = false
is_dated_since (some t) (some d) = leb t d

abbrev pub is_dated_until : Option ℕ → Option ℕ → Bool
is_dated_until none d = true
is_dated_until (some t) none = false
is_dated_until (some t) (some d) = ltb d t

-- the outcome of the deadline check in front of a batch, and of reading its rows
pub record Batch : Type 0 where
  pub deadline : Done
  pub rows : Result (List MessageRow)

-- the outcome of opening a file, with its batches
abbrev pub File : Type 0
File = Result (List Batch)

-- Where a scan stands: it goes on, with the ids seen and what the visitor has pushed, or the visitor
-- has stopped it.
pub data Walked : Type 0 where
  going : List Text → List MessageRow → Walked
  stopped : List MessageRow → Walked

abbrev pub pushed : Walked → List MessageRow
pushed (going seen out) = out
pushed (stopped out) = out

module _ (keep : MessageRow → Bool) (limit : ℕ) where
  -- the visitor pushes a row and goes on while there are fewer than `limit`
  abbrev pub visit : MessageRow → List Text → List MessageRow → Walked
  visit r seen out =
      if ltb (length out + 1) limit then going seen (out ++ r ∷ []) else stopped (out ++ r ∷ [])

  -- a message id that was seen before is skipped, then the filter is asked
  abbrev pub scan_row : MessageRow → List Text → List MessageRow → Walked
  scan_row r seen out =
      if listed r.message_id seen
      then going seen out
      else if keep r
      then visit r (r.message_id ∷ seen) out
      else going (r.message_id ∷ seen) out

  abbrev pub go_on : Walked → (List Text → List MessageRow → Walked) → Walked
  go_on (going seen out) next = next seen out
  go_on (stopped out) next = stopped out

  unfoldable pub scan_rows : List MessageRow → List Text → List MessageRow → Walked
  scan_rows [] seen out = going seen out
  scan_rows (r ∷ rows) seen out = go_on (scan_row r seen out) (λ s o. scan_rows rows s o)

  abbrev pub go_on_reading :
      Result Walked → (List Text → List MessageRow → Result Walked) → Result Walked
  go_on_reading (err e) next = err e
  go_on_reading (ok (going seen out)) next = next seen out
  go_on_reading (ok (stopped out)) next = ok (stopped out)

  -- `check_request_deadline()?`, the rows of the batch, and the loop over them
  abbrev pub scan_batch : Batch → List Text → List MessageRow → Result Walked
  scan_batch b seen out = b.deadline >> (do rows ← b.rows; ok (scan_rows rows seen out))

  unfoldable pub scan_batches : List Batch → List Text → List MessageRow → Result Walked
  unfolding scan_rows
  scan_batches [] seen out = ok (going seen out)
  scan_batches (b ∷ bs) seen out =
      go_on_reading (scan_batch b seen out) (λ s o. scan_batches bs s o)

  abbrev pub scan_file : File → List Text → List MessageRow → Result Walked
  scan_file f seen out = f >>= λ bs. scan_batches bs seen out

  unfoldable pub scan_files : List File → List Text → List MessageRow → Result Walked
  unfolding scan_batches
  scan_files [] seen out = ok (going seen out)
  scan_files (f ∷ fs) seen out = go_on_reading (scan_file f seen out) (λ s o. scan_files fs s o)

  -- `Reader::scan` on the files that `parquet_files` finds, the newest first, with the visitor of the
  -- queries: what the visitor has pushed in the end
  unfoldable pub scan : Result (List File) → Result (List MessageRow)
  unfolding scan_files
  scan files = do fs ← files; w ← scan_files fs [] []; ok (pushed w)

-- newest first; a row without a date counts as the least date, here 0
abbrev pub is_newer : MessageRow → MessageRow → Bool
is_newer a b = ltb (unwrap_or 0 b.date_unix_ns) (unwrap_or 0 a.date_unix_ns)

abbrev pub eq_keeps : EqField → Text → Option ℕ → Option ℕ → Option Text → MessageRow → Bool
eq_keeps field value since until list r =
    in_list_filter list r
    && is_dated_since since r.date_unix_ns
    && is_dated_until until r.date_unix_ns
    && eq_field_matches field r value

unfoldable pub eq_scan :
    EqField
    → Text
    → Option ℕ
    → Option ℕ
    → Option Text
    → ℕ
    → Result (List File)
    → Result (List MessageRow)
eq_scan field value since until list limit files = do
  out ← scan (eq_keeps field value since until list) limit files
  ok (sort_by is_newer out)

abbrev pub in_list_keeps :
    EqField → List Text → Option ℕ → Option ℕ → Option Text → MessageRow → Bool
in_list_keeps field values since until list r =
    in_list_filter list r
    && is_dated_since since r.date_unix_ns
    && is_dated_until until r.date_unix_ns
    && any (λ v. eq_field_matches field r v) values

unfoldable pub in_list_scan :
    EqField
    → List Text
    → Option ℕ
    → Option ℕ
    → Option Text
    → ℕ
    → Result (List File)
    → Result (List MessageRow)
in_list_scan field values since until list limit files = do
  out ← scan (in_list_keeps field values since until list) limit files
  ok (sort_by is_newer out)
