-- ===== src/Tid/Defs.antt =====
-- The rows, the climb to the root of a thread, the fallback by subject, and the side table.
-- An `i64` stands as the number that is 2 ^ 63 larger, so the order is that of the numbers and
-- `saturating_sub`, which stops at `i64::MIN`, is subtraction that stops at 0.
use kernel_lore_mcp.Base.{
  ℕ, zero, suc, ◌-◌, Bool, false, not, ◌&&◌, List, [], ◌∷◌, ◌++◌, map, length, leb, ltb, ◌==◌, any,
  retain, if◌then◌else◌, Option, none, some, is_some, unwrap_or, or_else, sort_by, ◌>>=◌,
}
use kernel_lore_mcp.Text.{Text, text_eq}
use kernel_lore_mcp.Text.Sorted.{to_set}

abbrev pub I64 : Type 0
I64 = ℕ

-- 0, the largest value, and 30 days of nanoseconds
abbrev pub i64_zero : I64
i64_zero = 9223372036854775808

abbrev pub i64_max : I64
i64_max = 18446744073709551615

abbrev pub fallback_window_ns : ℕ
fallback_window_ns = 2592000000000000

-- `LiteRow`, with the two lists of the full row that `rebuild` reads in its second pass; the field
-- `tid` is what `resolve_tid` returns.
pub record LiteRow : Type 0 where
  pub message_id : Text
  pub list : Text
  pub in_reply_to : Option Text
  pub references_first : Option Text
  pub subject_normalized : Option Text
  pub from_addr : Option Text
  pub date_unix_ns : Option I64
  pub is_cover_letter : Bool
  pub touched_files : List Text
  pub touched_functions : List Text

-- `by_mid`: of rows with one message id the map keeps the last
unfoldable pub by_mid : List LiteRow → Text → Option LiteRow
by_mid [] mid = none
by_mid (r ∷ rs) mid = elim (by_mid rs mid) [
  | some later ↦ some later
  | none ↦ if text_eq r.message_id mid then some r else none
]

unfoldable pub has_mid : List LiteRow → Text → Bool
unfolding by_mid
has_mid rows mid = is_some (by_mid rows mid)

abbrev pub parent_mid : LiteRow → Option Text
parent_mid r = or_else r.in_reply_to r.references_first

abbrev pub member : Text → List Text → Bool
member a = any (λ b. text_eq b a)

-- the parent, if it is in the corpus
unfoldable pub up : List LiteRow → Text → Option Text
up rows current = do
  cur ← by_mid rows current
  p ← parent_mid cur
  if has_mid rows p then some p else none

-- one round of the loop: the message to go on with, unless it was visited
unfoldable pub next_up : List LiteRow → List Text → Text → Option Text
next_up rows visited current = do p ← up rows current; if member p visited then none else some p

-- The `while` loop of `resolve_tid_lite`; `none` means that the fuel ran out.
unfoldable pub climb : ℕ → List LiteRow → List Text → Text → Option Text
climb zero rows visited current = none
climb (suc f) rows visited current = elim (next_up rows visited current) [
  | none ↦ some current
  | some p ↦ climb f rows (p ∷ visited) p
]

abbrev pub is_text : Option Text → Text → Bool
is_text none subject = false
is_text (some s) subject = text_eq s subject

-- the key of a subject bucket
abbrev pub same_bucket : LiteRow → Text → LiteRow → Bool
same_bucket row subject r =
    text_eq r.list row.list
    && is_text r.subject_normalized subject
    && text_eq (unwrap_or [] r.from_addr) (unwrap_or [] row.from_addr)

abbrev pub dated : LiteRow → I64 × Text
dated r = (unwrap_or i64_zero r.date_unix_ns, r.message_id)

-- one bucket of `subj_bucket`, sorted by date
unfoldable pub bucket : List LiteRow → LiteRow → Text → List (I64 × Text)
bucket rows row subject =
    sort_by (λ a b. ltb a.0 b.0) (map dated (retain (same_bucket row subject) rows))

abbrev pub in_window : Option I64 → I64 → Bool
in_window date d = leb (unwrap_or 0 date - fallback_window_ns) d && leb d (unwrap_or i64_max date)

-- the first message of the bucket that is in the window
unfoldable pub first_in_window : Option I64 → List (I64 × Text) → Option Text
first_in_window date [] = none
first_in_window date ((d, mid) ∷ rest) =
    let later = first_in_window date rest in if in_window date d then some mid else later

unfoldable pub by_subject : List LiteRow → LiteRow → Option Text
by_subject rows row =
    row.subject_normalized >>= λ subject. first_in_window row.date_unix_ns (bucket rows row subject)

-- `resolve_tid_lite`
unfoldable pub resolve_tid : List LiteRow → LiteRow → Text
resolve_tid rows row =
    let root =
      unwrap_or row.message_id
        (climb (suc (length rows)) rows (row.message_id ∷ []) row.message_id) in
    if not (text_eq root row.message_id)
    then root
    else unwrap_or row.message_id (by_subject rows row)

pub record TidRow : Type 0 where
  pub message_id : Text
  pub tid : Text
  pub propagated_files : List Text
  pub propagated_functions : List Text

-- `tid_of_mid`, the thread of the last row with that id
unfoldable pub tid_of_mid : List LiteRow → Text → Option Text
tid_of_mid rows mid = do r ← by_mid rows mid; some (resolve_tid rows r)

-- what the rows of a thread carry, in scan order
unfoldable pub collect : (LiteRow → List Text) → List LiteRow → List LiteRow → Text → List Text
collect field rows [] tid = []
collect field rows (r ∷ rs) tid =
    let rest = collect field rows rs tid in
    if is_text (tid_of_mid rows r.message_id) tid then field r ++ rest else rest

unfoldable pub propagated : (LiteRow → List Text) → List LiteRow → Text → List Text
propagated field rows tid = if length tid == 0 then [] else to_set (collect field rows rows tid)

unfoldable pub tid_row : List LiteRow → LiteRow → TidRow
tid_row rows r =
    let tid = resolve_tid rows r in
    if r.is_cover_letter
    then (record {
      message_id = r.message_id;
      tid = tid;
      propagated_files = propagated (λ x. x.touched_files) rows tid;
      propagated_functions = propagated (λ x. x.touched_functions) rows tid;
    })
    else (record {
      message_id = r.message_id;
      tid = tid;
      propagated_files = [];
      propagated_functions = [];
    })

-- `rebuild`: one side-table row for each row, in order
unfoldable pub rebuild : List LiteRow → List TidRow
rebuild rows = map (tid_row rows) rows
