-- ===== src/Tests/Scan.antt =====
-- src/reader.rs: scans of two files, the newer one with a row of a message that the older has too.
use kernel_lore_mcp.Base.{◌≡◌, refl, List, [], ◌∷◌, none, some, sort_by}
use kernel_lore_mcp.Error.{Result, ok, err, io}
use kernel_lore_mcp.Text.{codes, text_eq}
use kernel_lore_mcp.Text.Distinct.{listed}
use kernel_lore_mcp.Reader.{MessageRow, field_list}
use kernel_lore_mcp.Reader.Matches.{eq_field_matches}
use kernel_lore_mcp.Reader.Scan.{
  Batch, File, scan, scan_files, scan_batches, scan_rows, eq_keeps, eq_scan,
}
use kernel_lore_mcp.Reader.Answers.{Answers, eq_scan-Answers}
use kernel_lore_mcp.Tests.Rank.{patched}

abbrev old : MessageRow
old = record patched { message_id = codes "a@x"; date_unix_ns = some 5 }

abbrev new : MessageRow
new = record patched { message_id = codes "b@x"; date_unix_ns = some 9 }

-- another row of the message of `old`
abbrev stale : MessageRow
stale = record patched { message_id = codes "a@x"; date_unix_ns = some 7 }

abbrev batch : List MessageRow → Batch
batch rows = record { deadline = ok tt; rows = ok rows }

abbrev files : Result (List File)
files = ok (ok (batch (old ∷ []) ∷ []) ∷ ok (batch (stale ∷ new ∷ []) ∷ []) ∷ [])

-- the second batch of the first file fails
abbrev broken : Result (List File)
broken = ok (ok (batch (old ∷ []) ∷ record { deadline = ok tt; rows = err io } ∷ []) ∷ [])

newest_first : eq_scan field_list (codes "mm") none none none 5 files ≡ ok (new ∷ old ∷ [])
unfolding eq_scan scan scan_files scan_batches scan_rows listed eq_field_matches text_eq sort_by
newest_first = refl

-- the freshest row of the message is too old, and its other row is skipped
skipped_before_filter : eq_scan field_list (codes "mm") (some 6) none none 5 files ≡ ok (new ∷ [])
unfolding eq_scan scan scan_files scan_batches scan_rows listed eq_field_matches text_eq sort_by
skipped_before_filter = refl

-- the limit stops the scan in the order of the files
newest_missed : eq_scan field_list (codes "mm") none none none 1 files ≡ ok (old ∷ [])
unfolding eq_scan scan scan_files scan_batches scan_rows listed eq_field_matches text_eq sort_by
newest_missed = refl

-- a limit of zero gives a row
one_for_zero : eq_scan field_list (codes "mm") none none none 0 files ≡ ok (old ∷ [])
unfolding eq_scan scan scan_files scan_batches scan_rows listed eq_field_matches text_eq sort_by
one_for_zero = refl

failed_batch : eq_scan field_list (codes "mm") none none none 5 broken ≡ err io
unfolding eq_scan scan scan_files scan_batches scan_rows listed eq_field_matches text_eq sort_by
failed_batch = refl

-- a scan that has enough does not read on
stopped_before : eq_scan field_list (codes "mm") none none none 1 broken ≡ ok (old ∷ [])
unfolding eq_scan scan scan_files scan_batches scan_rows listed eq_field_matches text_eq sort_by
stopped_before = refl

eq_scan-Answers_example :
    Answers
      (eq_keeps field_list (codes "mm") (some 6) none none)
      5
      files
      (eq_scan field_list (codes "mm") (some 6) none none 5 files)
eq_scan-Answers_example = eq_scan-Answers field_list (codes "mm") (some 6) none none 5 files
